-- ===== src/Api/Logged.antt =====
-- The database of api/main.go with a log of the statements that are sent to it.
use take.Prelude.{
  ℕ, suc, ◌+◌, ◌≤◌, ◌≡◌, Bool, true, false, ◌||◌, List, [], ◌∷◌, Text, codes, text_eq, All, length,
  arith,
}
use take.Api.Sql.{Statement, Sql}

-- The database with the statements that are sent to it, the last of them first.
abbrev pub logged : Sql → Sql
logged sql = record {
  Db = List Statement × sql.Db;
  query = λ st d. let r = sql.query st (d.1) in (r.0, (st ∷ d.0, r.1));
  exec = λ st d. let r = sql.exec st (d.1) in (r.0, (st ∷ d.0, r.1));
  ping = λ d. let r = sql.ping (d.1) in (r.0, (d.0, r.1));
  table = λ d. sql.table (d.1);
}

abbrev pub statements : List Text
statements =
    codes "SELECT id, title, done, created FROM todos ORDER BY id"
    ∷ codes "SELECT id, title, done, created FROM todos WHERE id = ?"
    ∷ codes "INSERT INTO todos (title) VALUES (?)"
    ∷ codes "UPDATE todos SET title = ? WHERE id = ?"
    ∷ codes "UPDATE todos SET done = ? WHERE id = ?"
    ∷ codes "UPDATE todos SET title = ?, done = ? WHERE id = ?"
    ∷ codes "DELETE FROM todos WHERE id = ?"
    ∷ []

abbrev pub one_of : Text → List Text → Bool
one_of s [] = false
one_of s (t ∷ ts) = text_eq s t || one_of s ts

-- A statement with one of those texts.
abbrev pub IsFixed : Statement → Type 0
IsFixed st = one_of st.text statements ≡ true

module _ (sql : Sql) where
  -- A result before which at most `n` more statements were sent, each of them fixed.
  unfoldable pub Sends : {A : Type 0} → ℕ → List Statement → A × (List Statement × sql.Db) → Type 0
  Sends n l x = (All IsFixed l → All IsFixed (x.1.0)) × (length (x.1.0) ≤ length l + n)

  pub none-Sends : {A : Type 0} (a : A) (n : ℕ) (d : List Statement × sql.Db) → Sends n (d.0) (a, d)
  unfolding Sends
  none-Sends a n d = (λ h. h, omega arith)

  pub same-Sends : {A : Type 0} (x : A × (List Statement × sql.Db)) → Sends 0 (x.1.0) x
  same-Sends (a, d) = none-Sends a 0 d

  -- One more statement before.
  pub more-Sends :
      {A : Type 0} (n : ℕ) (l : List Statement) (st : Statement) (x : A × (List Statement × sql.Db))
      → IsFixed st
      → Sends n (st ∷ l) x
      → Sends (suc n) l x
  unfolding Sends
  more-Sends n l st x f (h, k) = (λ g. h (f, g), omega arith)

  pub trans-Sends :
      {A B : Type 0} (n m k : ℕ) (l : List Statement) (x : A × (List Statement × sql.Db))
      (y : B × (List Statement × sql.Db))
      → Sends n l x
      → Sends m (x.1.0) y
      → n + m ≤ k
      → Sends k l y
  unfolding Sends
  trans-Sends n m k l x y (h, e) (h', e') f = (λ g. h' (h g), omega arith)
