-- ===== src/Permissions/Ordered.antt =====
-- `sorted(set(values))` on texts: the distinct values in ascending order.
use verigence_security.Common.{
  ◌≡◌, refl, sym, Bool, true, false, List, [], ◌∷◌, arith, Text, text_eq, text_lt, text_eq_refl,
  text_eq_sound, text_lt_total, text_lt_irrefl, if◌then◌else◌, ◌||◌, ◌∙◌, every, Bool-cases, inl,
  inr,
}

-- Into its place in an ascending list, unless it is there.
insert_text : Text → List Text → List Text
insert_text a [] = a ∷ []
insert_text a (b ∷ bs) =
    let rest = insert_text a bs in
    if text_eq a b then b ∷ bs else if text_lt a b then a ∷ b ∷ bs else b ∷ rest

unfoldable pub sorted_set : List Text → List Text
unfolding insert_text
sorted_set [] = []
sorted_set (a ∷ as') = insert_text a (sorted_set as')

-- Every element is below the next, so none stands twice.
abbrev pub Below : Text → List Text → Type 0
Below a [] = Unit
Below a (b ∷ bs) = text_lt a b ≡ true

abbrev pub IsAscending : List Text → Type 0
IsAscending [] = Unit
IsAscending (a ∷ as') = Below a as' × IsAscending as'

Below-insert_text :
    (a b : Text) (bs : List Text) → text_lt b a ≡ true → Below b bs → Below b (insert_text a bs)
unfolding insert_text
Below-insert_text a b [] h k = h
Below-insert_text a b (c ∷ cs) h k = ground arith

insert_text-IsAscending :
    (a : Text) (bs : List Text) → IsAscending bs → IsAscending (insert_text a bs)
unfolding insert_text
insert_text-IsAscending a [] h = (tt, tt)
insert_text-IsAscending a (b ∷ bs) h = elim (Bool-cases (text_eq a b)) [
  | inl same ↦ rw same h
  | inr other ↦ elim (Bool-cases (text_lt a b)) [
    | inl lt ↦ rw (other, lt) (lt, h)
    | inr ge ↦
        rw (other, ge)
          (
            Below-insert_text a b bs (text_lt_total a b ge other) h.0,
            insert_text-IsAscending a bs h.1,
          )
  ]
]

pub sorted_set-IsAscending : (xs : List Text) → IsAscending (sorted_set xs)
unfolding sorted_set
sorted_set-IsAscending [] = tt
sorted_set-IsAscending (a ∷ xs) =
    insert_text-IsAscending a (sorted_set xs) (sorted_set-IsAscending xs)

-- `x in values`
abbrev pub has : Text → List Text → Bool
has x [] = false
has x (a ∷ as') = text_eq x a || has x as'

-- `set(xs).issubset(ys)`
abbrev pub is_subset : List Text → List Text → Bool
is_subset xs ys = every (λ x. has x ys) xs

has-insert_text :
    (x a : Text) (bs : List Text) → has x (insert_text a bs) ≡ (text_eq x a || has x bs)
unfolding insert_text
has-insert_text x a [] = refl
has-insert_text x a (b ∷ bs) = ground (arith, has-insert_text x a bs, text_eq_sound a b)

-- Sorting drops repetitions and keeps the members.
pub has-sorted_set : (x : Text) (xs : List Text) → has x (sorted_set xs) ≡ has x xs
unfolding sorted_set
has-sorted_set x [] = refl
has-sorted_set x (a ∷ xs) = ground (arith, has-insert_text x a (sorted_set xs), has-sorted_set x xs)

lt_not_eq : (a b : Text) → text_lt a b ≡ true → text_eq a b ≡ false
lt_not_eq a b h = ground (arith, text_eq_sound a b, text_lt_irrefl a)

insert_text-Below : (a : Text) (bs : List Text) → Below a bs → insert_text a bs ≡ a ∷ bs
unfolding insert_text
insert_text-Below a [] h = refl
insert_text-Below a (b ∷ bs) h = rw (lt_not_eq a b h, h)

-- An ascending list is sorted already.
pub sorted_set_of_IsAscending : (xs : List Text) → IsAscending xs → sorted_set xs ≡ xs
unfolding sorted_set
sorted_set_of_IsAscending [] h = refl
sorted_set_of_IsAscending (a ∷ xs) h =
    rw (sorted_set_of_IsAscending xs h.1) (insert_text-Below a xs h.0)

pub every-has :
    (p : Text → Bool) (xs : List Text) (x : Text) → every p xs ≡ true → has x xs ≡ true → p x ≡ true
every-has p [] x h k = cc
every-has p (a ∷ xs) x h k = ground (arith, text_eq_sound x a, every-has p xs x)

pub every_of_has :
    (p : Text → Bool) (xs : List Text)
    → ((x : Text) → has x xs ≡ true → p x ≡ true)
    → every p xs ≡ true
every_of_has p [] f = refl
every_of_has p (a ∷ xs) f =
    ground (arith, f a, text_eq_refl a, every_of_has p xs (λ x h. f x (ground arith)))

-- What holds of every member of a list holds of every member of the sorted list.
pub every-sorted_set :
    (p : Text → Bool) (xs : List Text) → every p xs ≡ true → every p (sorted_set xs) ≡ true
every-sorted_set p xs h =
    every_of_has p (sorted_set xs) (λ x m. every-has p xs x h (sym (has-sorted_set x xs) ∙ m))
