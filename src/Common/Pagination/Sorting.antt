-- ===== src/Common/Pagination/Sorting.antt =====
-- `ORDER BY created_at DESC, id DESC`, as the listings of apps/api/src/orders/orders.service.ts and
-- apps/api/src/products/products.service.ts sort.
use fulfill_os.Prelude.{
  ◌≡◌, ◌≢◌, refl, sym, Bool, true, false, ◌&&◌, List, [], ◌∷◌, arith, if◌then◌else◌, filterb, All,
  All-map, Bool-cases, inl, inr,
}
use fulfill_os.Common.Pagination.{CursorFields, keyset_before, insert_newest, sort_newest}
use fulfill_os.Common.Pagination.Pages.{is_after, IsNewestFirst}

pub keyset_before_trans :
    (c d e : CursorFields)
    → keyset_before c d.created_at d.id ≡ true
    → keyset_before d e.created_at e.id ≡ true
    → keyset_before c e.created_at e.id ≡ true
keyset_before_trans c d e h k = ground (arith, h, k)

keyset_before_total :
    (c d : CursorFields)
    → c.id ≢ d.id
    → keyset_before c d.created_at d.id ≡ false
    → keyset_before d c.created_at c.id ≡ true
keyset_before_total c d other h = ground (arith, other, h)

keyset_before_asym :
    (c d : CursorFields)
    → keyset_before c d.created_at d.id ≡ true
    → keyset_before d c.created_at c.id ≡ false
keyset_before_asym c d h = ground (arith, h)

pub All-filterb :
    {A : Type 0} (P : A → Type 0) (f : A → Bool) (xs : List A) → All P xs → All P (filterb f xs)
All-filterb P f [] a = tt
All-filterb P f (x ∷ xs) a = elim (Bool-cases (f x)) [
  | inl yes_ ↦ rw yes_ (a.0, All-filterb P f xs a.1)
  | inr no_ ↦ rw no_ (All-filterb P f xs a.1)
]

pub filterb-filterb :
    {A : Type 0} (f g : A → Bool) (xs : List A)
    → filterb g (filterb f xs) ≡ filterb (λ x. f x && g x) xs
filterb-filterb f g [] = refl
filterb-filterb f g (x ∷ xs) = ground (arith, filterb-filterb f g xs)

module _ {A : Type 0} (fields : A → CursorFields) where
  -- No id stands twice.
  abbrev pub IdsDiffer : List A → Type 0
  IdsDiffer [] = Unit
  IdsDiffer (x ∷ xs) = All (λ y. (fields x).id ≢ (fields y).id) xs × IdsDiffer xs

  pub IdsDiffer-filterb : (f : A → Bool) (xs : List A) → IdsDiffer xs → IdsDiffer (filterb f xs)
  IdsDiffer-filterb f [] d = tt
  IdsDiffer-filterb f (x ∷ xs) d = elim (Bool-cases (f x)) [
    | inl yes_ ↦
        rw yes_
          (All-filterb (λ y. (fields x).id ≢ (fields y).id) f xs d.0, IdsDiffer-filterb f xs d.1)
    | inr no_ ↦ rw no_ (IdsDiffer-filterb f xs d.1)
  ]

  pub filterb-IsNewestFirst :
      (f : A → Bool) (xs : List A) → IsNewestFirst fields xs → IsNewestFirst fields (filterb f xs)
  filterb-IsNewestFirst f [] s = tt
  filterb-IsNewestFirst f (x ∷ xs) s = elim (Bool-cases (f x)) [
    | inl yes_ ↦ rw yes_ (
      All-filterb (λ y. is_after fields (fields x) y ≡ true) f xs s.0,
      filterb-IsNewestFirst f xs s.1,
    )
    | inr no_ ↦ rw no_ (filterb-IsNewestFirst f xs s.1)
  ]

  insert_newest-All :
      (P : A → Type 0) (a : A) (xs : List A) → P a → All P xs → All P (insert_newest fields a xs)
  unfolding insert_newest
  insert_newest-All P a [] h k = (h, tt)
  insert_newest-All P a (x ∷ xs) h k = elim (Bool-cases (is_after fields (fields x) a)) [
    | inl later ↦ rw later (k.0, insert_newest-All P a xs h k.1)
    | inr first ↦ rw first (h, k)
  ]

  pub sort_newest-All : (P : A → Type 0) (xs : List A) → All P xs → All P (sort_newest fields xs)
  unfolding sort_newest
  sort_newest-All P [] h = tt
  sort_newest-All P (x ∷ xs) h =
      insert_newest-All P x (sort_newest fields xs) h.0 (sort_newest-All P xs h.1)

  abbrev AfterAll : A → List A → Type 0
  AfterAll a xs = All (λ y. is_after fields (fields a) y ≡ true) xs

  AfterAll-trans :
      (a x : A) (xs : List A) → is_after fields (fields a) x ≡ true → AfterAll x xs → AfterAll a xs
  AfterAll-trans a x xs h k =
      All-map (λ y. is_after fields (fields x) y ≡ true) (λ y. is_after fields (fields a) y ≡ true)
        xs (λ y. keyset_before_trans (fields a) (fields x) (fields y) h) k

  insert_newest-IsNewestFirst :
      (a : A) (xs : List A)
      → All (λ y. (fields a).id ≢ (fields y).id) xs
      → IsNewestFirst fields xs
      → IsNewestFirst fields (insert_newest fields a xs)
  unfolding insert_newest
  insert_newest-IsNewestFirst a [] d s = (tt, tt)
  insert_newest-IsNewestFirst a (x ∷ xs) d s = elim (Bool-cases (is_after fields (fields x) a)) [
    | inl later ↦ rw later (
      insert_newest-All (λ y. is_after fields (fields x) y ≡ true) a xs later s.0,
      insert_newest-IsNewestFirst a xs d.1 s.1,
    )
    | inr first ↦
        let here = keyset_before_total (fields x) (fields a) (ground (arith, d.0)) first in
        rw first ((here, AfterAll-trans a x xs here s.0), s)
  ]

  -- Rows of different ids are sorted newest first.
  pub sort_newest-IsNewestFirst :
      (xs : List A) → IdsDiffer xs → IsNewestFirst fields (sort_newest fields xs)
  unfolding sort_newest
  sort_newest-IsNewestFirst [] d = tt
  sort_newest-IsNewestFirst (x ∷ xs) d =
      insert_newest-IsNewestFirst x (sort_newest fields xs)
        (sort_newest-All (λ y. (fields x).id ≢ (fields y).id) xs d.0)
        (sort_newest-IsNewestFirst xs d.1)

  insert_newest-first : (a : A) (xs : List A) → AfterAll a xs → insert_newest fields a xs ≡ a ∷ xs
  unfolding insert_newest
  insert_newest-first a [] h = refl
  insert_newest-first a (x ∷ xs) h = rw (keyset_before_asym (fields a) (fields x) h.0) refl

  filterb-insert_newest :
      (f : A → Bool) (a : A) (xs : List A)
      → All (λ y. (fields a).id ≢ (fields y).id) xs
      → IsNewestFirst fields xs
      → filterb f (insert_newest fields a xs)
        ≡ (if f a then insert_newest fields a (filterb f xs) else filterb f xs)
  unfolding insert_newest
  filterb-insert_newest f a [] d s = refl
  filterb-insert_newest f a (x ∷ xs) d s = elim (Bool-cases (is_after fields (fields x) a)) [
    | inl later ↦ ground (arith, later, filterb-insert_newest f a xs d.1 s.1)
    | inr first ↦
        let here = keyset_before_total (fields x) (fields a) (ground (arith, d.0)) first in
        let alone = insert_newest-first a (filterb f (x ∷ xs)) (
          All-filterb (λ y. is_after fields (fields a) y ≡ true) f (x ∷ xs)
            (here, AfterAll-trans a x xs here s.0)) in
        rw first
          (elim (Bool-cases (f a)) [ inl yes_ ↦ rw yes_ (sym alone) | inr no_ ↦ rw no_ refl ])
  ]

  pub filterb-sort_newest :
      (f : A → Bool) (xs : List A)
      → IdsDiffer xs
      → filterb f (sort_newest fields xs) ≡ sort_newest fields (filterb f xs)
  unfolding sort_newest
  filterb-sort_newest f [] d = refl
  filterb-sort_newest f (x ∷ xs) d =
      let rest = filterb-sort_newest f xs d.1 in
      let put =
        filterb-insert_newest f x (sort_newest fields xs)
          (sort_newest-All (λ y. (fields x).id ≢ (fields y).id) xs d.0)
          (sort_newest-IsNewestFirst xs d.1) in
      rw put (rw rest (elim (Bool-cases (f x)) [ inl yes_ ↦ rw yes_ refl | inr no_ ↦ rw no_ refl ]))
