-- ===== src/OsmEditor/Way/Split.antt =====
-- What splitting a way's node list gives.
use osmmini.Base.{
  Ensures, Ensures-eq, ℕ, zero, suc, ◌+◌, ◌-◌, ◌≤◌, ◌≡◌, refl, ap, true, false, some, List, [], ◌∷◌,
  ◌++◌, take, drop, length, leb, ok, arith, Bool-cases, Option-cases, inl, inr,
}
use osmmini.Base.Int.{ℤ, eqb_ℤ, eqb_ℤ_iff, eqb_ℤ_refl}
use osmmini.OsmEditor.Way.{
  index_of, split_from, split_nodes, last, first, rest_of, id_eq, merge_nodes,
}

-- Both lists hold the node, at the end and at the beginning, and together they are the whole list.
abbrev Cut : ℤ → List ℤ → ℕ → Type 0
Cut n l k =
    (last (take (suc k) l) ≡ some n)
    × (first (drop k l) ≡ some n)
    × (take (suc k) l ++ rest_of (drop k l) ≡ l)
    × (length (take (suc k) l) ≡ suc k)
    × (length (drop k l) + k ≡ length l)

index_of-Cut : (n : ℤ) (l : List ℤ) (k : ℕ) → index_of n l ≡ some k → Cut n l k
index_of-Cut n [] k h = cc
index_of-Cut n (i ∷ l) k h = elim (Bool-cases (eqb_ℤ i n)) [
  | inl e ↦
      let p : 0 ≡ k = cc (rw e at h) in
      rw (← p)
        (ap some ((eqb_ℤ_iff i n).0 e), ap some ((eqb_ℤ_iff i n).0 e), refl, refl, omega arith)
  | inr e ↦ elim (Option-cases (index_of n l)) [
    | inl q ↦ cc (rw (e, q) at h)
    | inr (j, q) ↦
        let p : suc j ≡ k = cc (rw (e, q) at h) in rw (← p) (longer i l j (index_of-Cut n l j q))
  ]
]
  where
    longer : (i : ℤ) (l : List ℤ) (j : ℕ) → Cut n l j → Cut n (i ∷ l) (suc j)
    longer i [] j (a, b, c, d, e) = cc
    longer i (x ∷ l) j (a, b, c, d, e) = (a, b, ap (λ r. i ∷ r) c, ap suc d, omega (arith, e))

id_eq_refl : (n : ℤ) → id_eq (some n) (some n) ≡ true
id_eq_refl n = eqb_ℤ_refl n

abbrev Joined : ℤ → List ℤ → List ℤ × List ℤ → Type 0
Joined n nodes p =
    (merge_nodes p.0 p.1 ≡ ok nodes)
    × (last p.0 ≡ some n)
    × (first p.1 ≡ some n)
    × (2 ≤ length p.0)
    × (2 ≤ length p.1)

parts-Joined :
    (n : ℤ) (l : List ℤ) (k : ℕ)
    → Cut n l (suc k)
    → leb (length l - 1) (suc k) ≡ false
    → Joined n l (take (suc (suc k)) l, drop (suc k) l)
unfolding merge_nodes
parts-Joined n l k (a, b, c, d, e) h =
    (rw (a, b, id_eq_refl n) (ap ok c), a, b, omega (arith, d), ground (arith, e))

split_from-Joined :
    (n : ℤ) (l : List ℤ) (k : ℕ) → Cut n l k → Ensures (Joined n l) (split_from (some k) l)
split_from-Joined n l zero c = tt
split_from-Joined n l (suc k) c = elim (Bool-cases (leb (length l - 1) (suc k))) [
  | inl e ↦ rw e tt
  | inr e ↦ rw e (parts-Joined n l k c e)
]

split_nodes-Joined : (n : ℤ) (l : List ℤ) → Ensures (Joined n l) (split_nodes n l)
unfolding split_nodes
split_nodes-Joined n l = elim (Option-cases (index_of n l)) [
  | inl e ↦ rw e tt
  | inr (k, e) ↦ rw e (split_from-Joined n l k (index_of-Cut n l k e))
]

-- Where a way can be split at a node, joining the parts gives the way again, the first part ends
-- and the second one begins with that node, and both have two nodes at least.
pub split_nodes-merge_nodes :
    (n : ℤ) (nodes a b : List ℤ)
    → split_nodes n nodes ≡ ok (a, b)
    → (merge_nodes a b ≡ ok nodes)
      × (last a ≡ some n)
      × (first b ≡ some n)
      × (2 ≤ length a)
      × (2 ≤ length b)
split_nodes-merge_nodes n nodes a b =
    Ensures-eq (Joined n nodes) (split_nodes n nodes) (split_nodes-Joined n nodes)
