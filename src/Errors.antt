-- ===== src/Errors.antt =====
-- src/error.rs: the errors of the program, and which of them are transient locks of the database.
use soika.Base.{
  ℕ, ◌-◌, ◌%◌, Bool, true, false, ◌||◌, Option, none, some, List, [], ◌∷◌, ◌==◌, any, if◌then◌else◌,
  map,
}
use soika.Base.Int.{ℤ, pos, negsuc}
use soika.Base.Text.{Str, codes, str_eq, contains, to_lower}

-- The driver's error as the library `sqlx` shows it: whether it is PostgreSQL's, its code as text
-- and as the `i32` that the text parses to, and its message.
pub record DatabaseError : Type 0 where
  pub is_pg : Bool
  pub code : Option Str
  pub number : Option ℤ
  pub message : Str

-- An error of `sqlx`: the database's own, or another one.
pub data SqlxError : Type 0 where
  database : DatabaseError → SqlxError
  other : Str → SqlxError

pub data Error : Type 0 where
  not_found validation auth forbidden conflict : Str → Error
  rate_limited : Error
  db : SqlxError → Error
  db_busy : Str → Error → Error
  serde mail template internal alertmanager : Str → Error

abbrev pub sqlite_busy : ℕ
sqlite_busy = 5

abbrev pub sqlite_locked : ℕ
sqlite_locked = 6

abbrev pub pg_transient_sqlstates : List Str
pg_transient_sqlstates = codes "40001" ∷ codes "40P01" ∷ codes "55P03" ∷ []

unfoldable pub is_pg_transient : Str → Bool
is_pg_transient sqlstate = any (str_eq sqlstate) pg_transient_sqlstates

-- `code & 0xff` of an `i32` in two's complement.
abbrev pub low_byte : ℤ → ℕ
low_byte (pos n) = n % 256
low_byte (negsuc n) = 255 - n % 256

abbrev is_lock_code : Option ℤ → Bool
is_lock_code none = false
is_lock_code (some code) = low_byte code == sqlite_busy || low_byte code == sqlite_locked

unfoldable pub is_busy_code : DatabaseError → Bool
unfolding is_pg_transient
is_busy_code e =
    let msg = map to_lower e.message in
    if e.is_pg
    then elim e.code [ none ↦ false | some state ↦ is_pg_transient state ]
    else if is_lock_code e.number
    then true
    else contains msg (codes "database is locked")
      || contains msg (codes "database table is locked")

unfoldable pub is_busy : Error → Bool
unfolding is_busy_code
is_busy (db_busy what source) = true
is_busy (db (database e)) = is_busy_code e
is_busy _ = false
