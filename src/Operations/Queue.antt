-- ===== src/Operations/Queue.antt =====
-- What stands in the offline queue: no event ID twice, and never more items than its limit.
use osmmini.Base.{
  ◌≤◌, ◌≡◌, refl, sym, ◌∙◌, Bool, true, false, List, [], ◌∷◌, ◌++◌, optional_eq_iff, length, arith,
  any, all, keep, In, inl, inr, Bool-cases, Bool-ext, any-In, Result, ok, err, Ensures,
}
use osmmini.Operations.{
  Entry, Stored, missing, damaged, holds, queue_limit, same_event, has_id, or_else,
}

abbrev pub entries : Stored → List Entry
entries missing = []
entries damaged = []
entries (holds q) = q

-- No event ID stands twice.
abbrev pub NoRepeat : List Entry → Type 0
NoRepeat [] = Unit
NoRepeat (r ∷ q) = (any (λ i. same_event i r) q ≡ false) × NoRepeat q

pub record IsQueue (q : List Entry) : Type 0 where
  pub distinct : NoRepeat q
  pub named : all (λ i. has_id i.client_event_id) q ≡ true
  pub bounded : length q ≤ queue_limit

abbrev pub Includes : List Entry → List Entry → Type 0
Includes q l = (e : Entry) → In e l → In e q

pub turn : (a b : Entry) → same_event a b ≡ true → same_event b a ≡ true
turn a b h =
    (optional_eq_iff b.client_event_id a.client_event_id).1
      (sym ((optional_eq_iff a.client_event_id b.client_event_id).0 h))

pub same_event_comm : (a b : Entry) → same_event a b ≡ same_event b a
same_event_comm a b = Bool-ext (same_event a b) (same_event b a) (λ h. turn a b h) (λ h. turn b a h)

module _ (p f : Entry → Bool) where
  any-keep : (q : List Entry) → any p q ≡ false → any p (keep f q) ≡ false
  any-keep [] h = refl
  any-keep (x ∷ q) h = ground (arith, any-keep q)

  all-keep : (q : List Entry) → all p q ≡ true → all p (keep f q) ≡ true
  all-keep [] h = refl
  all-keep (x ∷ q) h = ground (arith, all-keep q)

module _ (f : Entry → Bool) where
  length-keep : (q : List Entry) → length (keep f q) ≤ length q
  length-keep [] = omega arith
  length-keep (x ∷ q) = ground (arith, length-keep q)

  NoRepeat-keep : (q : List Entry) → NoRepeat q → NoRepeat (keep f q)
  NoRepeat-keep [] h = tt
  NoRepeat-keep (x ∷ q) h = elim (Bool-cases (f x)) [
    | inl e ↦ rw e (any-keep (λ i. same_event i x) f q h.0, NoRepeat-keep q h.1)
    | inr e ↦ rw e (NoRepeat-keep q h.1)
  ]

  pub IsQueue-keep : (q : List Entry) → IsQueue q → IsQueue (keep f q)
  IsQueue-keep q h = record {
    distinct = NoRepeat-keep q h.distinct;
    named = all-keep (λ i. has_id i.client_event_id) f q h.named;
    bounded = omega (arith, length-keep q, h.bounded);
  }

pub any-snoc :
    (p : Entry → Bool) (q : List Entry) (r : Entry)
    → any p q ≡ false
    → p r ≡ false
    → any p (q ++ r ∷ []) ≡ false
any-snoc p [] r h k = ground arith
any-snoc p (x ∷ q) r h k = ground (arith, any-snoc p q r)

pub all-snoc :
    (p : Entry → Bool) (q : List Entry) (r : Entry)
    → all p q ≡ true
    → p r ≡ true
    → all p (q ++ r ∷ []) ≡ true
all-snoc p [] r h k = ground arith
all-snoc p (x ∷ q) r h k = ground (arith, all-snoc p q r)

pub NoRepeat-snoc :
    (q : List Entry) (r : Entry)
    → NoRepeat q
    → any (λ i. same_event i r) q ≡ false
    → NoRepeat (q ++ r ∷ [])
NoRepeat-snoc [] r h k = (refl, tt)
NoRepeat-snoc (x ∷ q) r h k = (
  any-snoc (λ i. same_event i x) q r h.0 (ground (arith, same_event_comm x r)),
  NoRepeat-snoc q r h.1 (ground arith),
)

pub or_else-Ensures :
    {E A : Type 0} (P : A → Type 0) (a : A) (r : Result E A) → Ensures P r → P a → P (or_else a r)
or_else-Ensures P a (ok b) h k = h
or_else-Ensures P a (err e) h k = k

pub same_event_refl : (a : Entry) → same_event a a ≡ true
same_event_refl a = (optional_eq_iff a.client_event_id a.client_event_id).1 refl

-- Two queued items of one ID are one.
pub the_one :
    (q : List Entry) (a b : Entry) → NoRepeat q → In a q → In b q → same_event a b ≡ true → a ≡ b
the_one [] a b h m n e = absurd m
the_one (x ∷ q) a b h (inl p) (inl n) e = p ∙ sym n
the_one (x ∷ q) a b h (inl p) (inr n) e =
    cc (h.0, any-In (λ i. same_event i x) b q n (turn x b (rw p at e)))
the_one (x ∷ q) a b h (inr m) (inl n) e = cc (h.0, any-In (λ i. same_event i x) a q m (rw n at e))
the_one (x ∷ q) a b h (inr m) (inr n) e = the_one q a b h.1 m n e
