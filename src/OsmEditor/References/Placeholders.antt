-- ===== src/OsmEditor/References/Placeholders.antt =====
-- The placeholders that `nextTempId` gives.
use osmmini.Base.{
  ◌≢◌, Option, subst, zero, suc, ◌+◌, ◌≤◌, ◌≡◌, refl, ap, true, false, ◌&&◌, not, List, [], ◌∷◌, In,
  inl, inr, arith, Bool-cases,
}
use osmmini.Base.Int.{ℤ, pos, negsuc, pos_part, neg_part, ◌≤ℤ◌, leb_ℤ, min_ℤ, pred_ℤ}
use osmmini.OsmEditor.Element.{Kind, Element, kind_eq, negative, type}
use osmmini.OsmEditor.References.Resolve.{kind_eq_iff}
use osmmini.OsmEditor.Draft.{Center, Draft, deletion, edit}
use osmmini.OsmEditor.References.{temp_ids, least, next_temp_id}

min_ℤ-left : (a b : ℤ) → min_ℤ a b ≤ℤ a
min_ℤ-left a b = ground arith

min_ℤ-right : (a b : ℤ) → min_ℤ a b ≤ℤ b
min_ℤ-right a b = ground arith

least-In : (i : ℤ) (l : List ℤ) → In i l → least l ≤ℤ i
least-In i [] m = absurd m
least-In i (j ∷ l) (inl q) = rw q (min_ℤ-left j (least l))
least-In i (j ∷ l) (inr m) = omega (arith, min_ℤ-right j (least l), least-In i l m)

least_bound : (l : List ℤ) → least l ≤ℤ pos 0
least_bound [] = omega arith
least_bound (j ∷ l) = omega (arith, min_ℤ-right j (least l), least_bound l)

below-pred_ℤ :
    (a i : ℤ) → a ≤ℤ i → suc (pos_part (pred_ℤ a) + neg_part i) ≤ pos_part i + neg_part (pred_ℤ a)
below-pred_ℤ (pos zero) i h = omega arith
below-pred_ℤ (pos (suc n)) i h = omega arith
below-pred_ℤ (negsuc n) i h = omega arith

negative-below : (i : ℤ) → suc (pos_part i) ≤ neg_part i → negative i ≡ true
negative-below (pos n) h = absurd (omega arith)
negative-below (negsuc n) h = refl

temp_ids-In :
    (k : Kind) (ds : List Draft) (b : Option Element) (v : Element) (c : Option Center)
    → In (edit b v c) ds
    → type v ≡ k
    → leb_ℤ (pos 0) v.id ≡ false
    → In v.id (temp_ids k ds)
temp_ids-In k [] b v c m t e = absurd m
temp_ids-In k (d ∷ ds) b v c (inl q) t e =
    subst (λ x. In v.id (temp_ids k (x ∷ ds))) q (rw (t, (kind_eq_iff k k).1 refl, e) (inl refl))
temp_ids-In k (deletion x ∷ ds) b v c (inr m) t e = temp_ids-In k ds b v c m t e
temp_ids-In k (edit a w x ∷ ds) b v c (inr m) t e =
    elim (Bool-cases (kind_eq (type w) k && not (leb_ℤ (pos 0) w.id))) [
      | inl q ↦ rw q (inr (temp_ids-In k ds b v c m t e))
      | inr q ↦ rw q (temp_ids-In k ds b v c m t e)
    ]

-- No draft that stays is of this type and has the placeholder that `nextTempId` gives, and that is
-- negative.
pub next_temp_id-fresh :
    (k : Kind) (ds : List Draft)
    → (negative (next_temp_id k ds) ≡ true)
      × ((b : Option Element) (v : Element) (c : Option Center)
          → In (edit b v c) ds
          → type v ≡ k
          → v.id ≢ next_temp_id k ds)
unfolding next_temp_id
next_temp_id-fresh k ds = (below_zero, unused)
  where
    l : ℤ
    l = least (temp_ids k ds)

    below_zero : negative (pred_ℤ l) ≡ true
    below_zero =
        negative-below (pred_ℤ l)
          (omega (arith, below-pred_ℤ l (pos 0) (least_bound (temp_ids k ds))))

    unused :
        (b : Option Element) (v : Element) (c : Option Center)
        → In (edit b v c) ds
        → type v ≡ k
        → v.id ≢ pred_ℤ l
    unused b v c m t q = elim (Bool-cases (leb_ℤ (pos 0) v.id)) [
      | inl e ↦ ground (
        arith,
        below-pred_ℤ l (pos 0) (least_bound (temp_ids k ds)),
        ap pos_part q,
        ap neg_part q,
      )
      | inr e ↦ omega (
        arith,
        below-pred_ℤ l v.id (least-In v.id (temp_ids k ds) (temp_ids-In k ds b v c m t e)),
        ap pos_part q,
        ap neg_part q,
      )
    ]
