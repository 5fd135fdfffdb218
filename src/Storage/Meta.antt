-- ===== src/Storage/Meta.antt =====
-- GetMeta and SetMeta of storage/storage.go: the table `metadata` of names and texts. The SQL
-- statements are the texts of the source; the database driver that runs them is a parameter.
use bitcoin_processing.Base.{
  ◌≡◌, ℕ, String, str_eq, Bool, Option, none, some, List, [], ◌∷◌, if◌then◌else◌, inl, inr, refl,
  ap, ◌∙◌, Bool-cases,
}
use bitcoin_processing.Base.Int.{ℤ}
use bitcoin_processing.Monad
use bitcoin_processing.Monad.{Outcome, ok, err, panic, M}

-- An argument of a statement, by its Go type.
pub data Value : Type 0 where
  uuid : ℕ → Value
  string : String → Value
  bytes : String → Value
  int64 : ℤ → Value
  uint64 : ℕ → Value
  flag : Bool → Value
  null : Value

-- SQLQueryExecutor: `Exec`, and `QueryRow` followed by `Scan` into one string.
pub record SqlQueryExecutor (Db : Type 0) : Type 0 where
  pub exec : String → List Value → M Db (Unit {0})
  pub query_string : String → List Value → M Db String

abbrev pub select_value : String
select_value = "SELECT value FROM metadata WHERE key = $1"

abbrev pub upsert_value : String
upsert_value =
    "INSERT INTO metadata (key, value) VALUES ($1, $2) ON CONFLICT (key) DO UPDATE SET value = EXCLUDED.value"

-- `result` keeps the default where Scan finds no row.
abbrev pub scanned_or : String → Outcome String → Outcome String
scanned_or default_val (ok v) = ok v
scanned_or default_val (err Monad.no_rows) = ok default_val
scanned_or default_val (err e) = err e
scanned_or default_val (panic p) = panic p

module _ {Db : Type 0} (e : SqlQueryExecutor Db) where
  unfoldable pub get_meta : String → String → M Db String
  get_meta name default_val d =
      let (r, d') = e.query_string select_value (string name ∷ []) d in
      (scanned_or default_val r, d')

  unfoldable pub set_meta : String → String → M Db (Unit {0})
  set_meta name value = e.exec upsert_value (string name ∷ string value ∷ [])

-- The metadata as a map: a statement that fails changes nothing, and the two statements do what
-- they say.
pub record MetaLaws {Db : Type 0} (e : SqlQueryExecutor Db) : Type 0 where
  pub metadata : Db → String → Option String
  pub select_found :
      (k : String) (d : Db) {v : String}
      → (e.query_string select_value (string k ∷ []) d).0 ≡ ok v
      → metadata d k ≡ some v
  pub select_missing :
      (k : String) (d : Db)
      → (e.query_string select_value (string k ∷ []) d).0 ≡ err Monad.no_rows
      → metadata d k ≡ none
  pub upsert_ok :
      (k v : String) (d : Db)
      → (e.exec upsert_value (string k ∷ string v ∷ []) d).0 ≡ ok tt
      → (j : String)
      → metadata (e.exec upsert_value (string k ∷ string v ∷ []) d).1 j
        ≡ (if str_eq k j then some v else metadata d j)

abbrev pub value_or : String → Option String → String
value_or default_val none = default_val
value_or default_val (some v) = v

scanned_value :
    (default_val : String) (r : Outcome String) (o : Option String) {u : String}
    → ((v : String) → r ≡ ok v → o ≡ some v)
    → (r ≡ err Monad.no_rows → o ≡ none)
    → scanned_or default_val r ≡ ok u
    → u ≡ value_or default_val o
scanned_value default_val (ok v) o f g h = rw (f v refl) cc
scanned_value default_val (err Monad.no_rows) o f g h = rw (g refl) cc
scanned_value default_val (err e) o f g h = cc
scanned_value default_val (panic p) o f g h = cc

module _ {Db : Type 0} (e : SqlQueryExecutor Db) (laws : MetaLaws e) where
  -- What GetMeta returns is what is stored under the name, or the default.
  pub get_meta-value :
      (name default_val : String) (d : Db) {u : String}
      → (get_meta e name default_val d).0 ≡ ok u
      → u ≡ value_or default_val (laws.metadata d name)
  unfolding get_meta
  get_meta-value name default_val d h =
      scanned_value default_val (e.query_string select_value (string name ∷ []) d).0
        (laws.metadata d name) (λ v r. laws.select_found name d r) (laws.select_missing name d) h

  -- After SetMeta succeeded, GetMeta returns the text that was set for that name, and for any other
  -- name what was there before, or the default: where it succeeds, no other text.
  pub get_meta-set_meta :
      (name value other default_val : String) (d : Db) {u : String}
      → (set_meta e name value d).0 ≡ ok tt
      → (get_meta e other default_val (set_meta e name value d).1).0 ≡ ok u
      → u ≡ (if str_eq name other then value else value_or default_val (laws.metadata d other))
  unfolding set_meta
  get_meta-set_meta name value other default_val d h k =
      let r = get_meta-value other default_val (set_meta e name value d).1 k in
      let s = r ∙ ap (λ o. value_or default_val o) (laws.upsert_ok name value d h other) in
      elim (Bool-cases (str_eq name other)) [ inl q ↦ rw q (rw q at s) | inr q ↦ rw q (rw q at s) ]
