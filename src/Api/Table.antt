-- ===== src/Api/Table.antt =====
-- The table of the API with distinct ids and titles as the handlers check them, under each change.
use take.Prelude.{
  ◌≡◌, refl, ◌∙◌, Bool, true, false, Option, none, some, List, [], ◌∷◌, ◌++◌, Text, ℤ, keep,
  if◌then◌else◌, arith,
}
use take.Api.Todos.{Todo, has_id, row_of, or_old, set_row}
use take.Api.Spec.{IsTitle, IsGiven, absent, present}

abbrev pub IsTable : List Todo → Type 0
IsTable [] = Unit
IsTable (t ∷ ts) = IsTitle t.text × (row_of t.id ts ≡ none) × IsTable ts

has_id-sym : (a b : Todo) → has_id a.id b ≡ has_id b.id a
has_id-sym a b = ground arith

-- No row of the id, at the head and behind it.
row_of-cons :
    (id : ℤ) (t : Todo) (ts : List Todo)
    → row_of id (t ∷ ts) ≡ none
    → (has_id id t ≡ false) × (row_of id ts ≡ none)
unfolding row_of
row_of-cons id t ts h = split (has_id id t) h
  where
    split :
        (b : Bool)
        → (if b then some t else row_of id ts) ≡ none
        → (b ≡ false) × (row_of id ts ≡ none)
    split true k = cc
    split false k = (refl, k)

cons-row_of :
    (id : ℤ) (t : Todo) (ts : List Todo)
    → has_id id t ≡ false
    → row_of id ts ≡ none
    → row_of id (t ∷ ts) ≡ none
unfolding row_of
cons-row_of id t ts h k = rw h k

row_of-append :
    (id : ℤ) (ts us : List Todo)
    → row_of id ts ≡ none
    → row_of id us ≡ none
    → row_of id (ts ++ us) ≡ none
row_of-append id [] us h k = k
row_of-append id (t ∷ ts) us h k =
    let (a, b) = row_of-cons id t ts h in cons-row_of id t (ts ++ us) a (row_of-append id ts us b k)

row_of-set_row :
    (id k : ℤ) (text : Option Text) (d : Option Bool) (ts : List Todo)
    → row_of id ts ≡ none
    → row_of id (set_row text d k ts) ≡ none
unfolding set_row
row_of-set_row id k text d [] h = h
row_of-set_row id k text d (t ∷ ts) h =
    let (a, b) = row_of-cons id t ts h in split (has_id k t) a (row_of-set_row id k text d ts b)
  where
    split :
        (b : Bool)
        → has_id id t ≡ false
        → row_of id (set_row text d k ts) ≡ none
        → row_of id (
            if b
            then (record t { text = or_old text t.text; is_done = or_old d t.is_done })
              ∷ set_row text d k ts
            else t ∷ set_row text d k ts)
          ≡ none
    split true a r = cons-row_of id _ _ a r
    split false a r = cons-row_of id _ _ a r

row_of-keep :
    (id : ℤ) (p : Todo → Bool) (ts : List Todo) → row_of id ts ≡ none → row_of id (keep p ts) ≡ none
unfolding keep
row_of-keep id p [] h = h
row_of-keep id p (t ∷ ts) h =
    let (a, b) = row_of-cons id t ts h in split (p t) a (row_of-keep id p ts b)
  where
    split :
        (b : Bool)
        → has_id id t ≡ false
        → row_of id (keep p ts) ≡ none
        → row_of id (if b then t ∷ keep p ts else keep p ts) ≡ none
    split true a r = cons-row_of id t _ a r
    split false a r = r

pub append-IsTable :
    (ts : List Todo) (x : Todo)
    → IsTitle x.text
    → row_of x.id ts ≡ none
    → IsTable ts
    → IsTable (ts ++ x ∷ [])
unfolding row_of
append-IsTable [] x f n h = (f, refl, tt)
append-IsTable (t ∷ ts) x f n (g, u, h) =
    let (a, b) = row_of-cons x.id t ts n in
    (
      g,
      row_of-append t.id ts (x ∷ []) u (cons-row_of t.id x [] (has_id-sym t x ∙ a) refl),
      append-IsTable ts x f b h,
    )

or_old-IsTitle :
    (given : Option Text) (text : Option Text) (old : Text)
    → IsGiven given text
    → IsTitle old
    → IsTitle (or_old text old)
or_old-IsTitle given text old absent h = h
or_old-IsTitle given text old (present k) h = k

pub set_row-IsTable :
    (given text : Option Text) (d : Option Bool) (id : ℤ) (ts : List Todo)
    → IsGiven given text
    → IsTable ts
    → IsTable (set_row text d id ts)
unfolding set_row
set_row-IsTable given text d id [] g h = tt
set_row-IsTable given text d id (t ∷ ts) g (f, u, h) =
    split (has_id id t) (set_row-IsTable given text d id ts g h)
  where
    split :
        (b : Bool)
        → IsTable (set_row text d id ts)
        → IsTable (
            if b
            then (record t { text = or_old text t.text; is_done = or_old d t.is_done })
              ∷ set_row text d id ts
            else t ∷ set_row text d id ts)
    split true r = (or_old-IsTitle given text t.text g f, row_of-set_row t.id id text d ts u, r)
    split false r = (f, row_of-set_row t.id id text d ts u, r)

pub keep-IsTable : (p : Todo → Bool) (ts : List Todo) → IsTable ts → IsTable (keep p ts)
unfolding keep
keep-IsTable p [] h = tt
keep-IsTable p (t ∷ ts) (f, u, h) = split (p t) (keep-IsTable p ts h)
  where
    split : (b : Bool) → IsTable (keep p ts) → IsTable (if b then t ∷ keep p ts else keep p ts)
    split true r = (f, row_of-keep t.id p ts u, r)
    split false r = r
