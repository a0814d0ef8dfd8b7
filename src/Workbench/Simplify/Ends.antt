-- ===== src/Workbench/Simplify/Ends.antt =====
-- `reduce` of cmd/web/geo-workbench.js ends, and keeps both ends of a line.
use osmmini.Base.{
  ℕ, zero, suc, ◌+◌, ◌-◌, ◌*◌, ◌≤◌, ◌<◌, ◌≡◌, refl, subst, Bool, true, false, not, ◌||◌, ◌==◌, leb,
  ltb, any, any-In, Option, none, some, List, [], ◌∷◌, length, All, In, if◌then◌else◌, Result, ok,
  err, ◌>>=◌, Holds, Bool-cases, inl, inr, arith,
}
use osmmini.Json.{Value}
use osmmini.Json.Numbers.{Number, number_eq}
use osmmini.Planning.Arithmetic.{Arithmetic, int, Point}
use osmmini.Workbench.Simplify.{
  Trouble, not_regional, too_complex, endless, Tally, operation_limit, kept_points, scan, split,
  loop, point_at, taken_out, finished, ends, regional, line_loop, projected, flat, reduced, reduce,
}

-- Twice the length of each piece on the stack, less one: what the loop has still to do at most.
abbrev to_do : List (ℕ × ℕ) → ℕ
to_do [] = 0
to_do ((first, last) ∷ stack) = 2 * (last - first) - 1 + to_do stack

abbrev IsPiece : ℕ × ℕ → Type 0
IsPiece (first, last) = first < last

module _ (math : Arithmetic) (metres : Number) where
  abbrev Between : ℕ → ℕ → Result Trouble (ℕ × Option ℕ) → Type 0
  Between first last (ok (operations, none)) = Unit
  Between first last (ok (operations, some at)) = (first < at) × (at < last)
  Between first last (err endless) = ⊥
  Between first last (err other) = Unit

  limited-Between :
      (b : Bool) (first last : ℕ) (r : Result Trouble (ℕ × Option ℕ))
      → Between first last r
      → Between first last (if b then err too_complex else r)
  limited-Between true first last r h = tt
  limited-Between false first last r h = h

  further-Holds :
      (b : Bool) (first last i : ℕ) (at : Option ℕ)
      → (first < i) × (i < last)
      → Holds (λ j. (first < j) × (j < last)) at
      → Holds (λ j. (first < j) × (j < last)) (if b then some i else at)
  further-Holds true first last i at k h = k
  further-Holds false first last i at k h = h

  -- A point that is found lies strictly between the ends of its piece.
  scan-Between :
      (points : List Point) (a b : Point) (first last count i operations : ℕ) (best : Number)
      (at : Option ℕ)
      → first < i
      → i + count ≤ last
      → Holds (λ j. (first < j) × (j < last)) at
      → Between first last (scan math metres points a b count i operations best at)
  scan-Between points a b first last zero i operations best none above below h = tt
  scan-Between points a b first last zero i operations best (some j) above below h = h
  scan-Between points a b first last (suc count) i operations best at above below h =
      limited-Between (leb operation_limit operations) first last _ (
        scan-Between points a b first last count (suc i) (suc operations) _ _ (omega arith)
          (omega arith) (further-Holds _ first last i at (above, omega arith) h))

  -- The loop ends, and has kept what it was given to keep.
  abbrev HasKept : List ℕ → Result Trouble (ℕ × List ℕ) → Type 0
  HasKept given (ok (operations, keep)) = (j : ℕ) → In j given → In j keep
  HasKept given (err endless) = ⊥
  HasKept given (err other) = Unit

  HasKept-cons :
      (at : ℕ) (given : List ℕ) (r : Result Trouble (ℕ × List ℕ))
      → HasKept (at ∷ given) r
      → HasKept given r
  HasKept-cons at given (ok (operations, keep)) h = λ j m. h j (inr m)
  HasKept-cons at given (err endless) h = h
  HasKept-cons at given (err not_regional) h = tt
  HasKept-cons at given (err too_complex) h = tt

  abbrev Loop : Type 0
  Loop = List (ℕ × ℕ) → List ℕ → ℕ → Result Trouble (ℕ × List ℕ)

  -- A piece that is split leaves less to do.
  split-HasKept :
      (again : Loop) (rounds first last : ℕ) (stack : List (ℕ × ℕ)) (keep : List ℕ)
      → ((s : List (ℕ × ℕ)) (k : List ℕ) (n : ℕ)
          → All IsPiece s
          → to_do s ≤ rounds
          → HasKept k (again s k n))
      → first < last
      → All IsPiece stack
      → to_do ((first, last) ∷ stack) ≤ suc rounds
      → (r : Result Trouble (ℕ × Option ℕ)) → Between first last r
      → HasKept keep (r >>= split math metres again first last stack keep)
  split-HasKept again rounds first last stack keep ih l p h (ok (n, none)) b =
      ih stack keep n p (omega arith)
  split-HasKept again rounds first last stack keep ih l p h (ok (n, some at)) (low, high) =
      HasKept-cons at keep (again ((at, last) ∷ (first, at) ∷ stack) (at ∷ keep) n)
        (ih ((at, last) ∷ (first, at) ∷ stack) (at ∷ keep) n (high, (low, p)) (omega arith))
  split-HasKept again rounds first last stack keep ih l p h (err endless) b = b
  split-HasKept again rounds first last stack keep ih l p h (err not_regional) b = tt
  split-HasKept again rounds first last stack keep ih l p h (err too_complex) b = tt

  loop-HasKept :
      (points : List Point) (best : Number) (rounds : ℕ) (stack : List (ℕ × ℕ)) (keep : List ℕ)
      (operations : ℕ)
      → All IsPiece stack
      → to_do stack ≤ rounds
      → HasKept keep (loop math metres points best rounds stack keep operations)
  loop-HasKept points best rounds [] keep operations p h = λ j m. m
  loop-HasKept points best zero ((first, last) ∷ stack) keep operations p h =
      let l : first < last = p.0 in absurd (omega arith)
  loop-HasKept points best (suc rounds) ((first, last) ∷ stack) keep operations (l, p) h =
      split-HasKept (loop math metres points best rounds) rounds first last stack keep
        (loop-HasKept points best rounds) l p h
        (scan math metres points (point_at math metres points first)
          (point_at math metres points last) (last - suc first) (suc first) operations best none)
        (scan-Between points _ _ first last (last - suc first) (suc first) operations best none
          (omega arith) (omega arith) tt)

  -- The first and the last point of a list, or `other`.
  abbrev first_or : Value → List Value → Value
  first_or other [] = other
  first_or other (p ∷ rest) = p

  abbrev last_or : Value → List Value → Value
  last_or other [] = other
  last_or other (p ∷ rest) = last_or p rest

  -- The ends stay, and no loop needs more rounds than it is given.
  abbrev pub IsReduced : List Value → Result Trouble (List Value × Tally) → Type 0
  IsReduced points (ok (rest, t)) =
      (other : Value)
      → (first_or other rest ≡ first_or other points) × (last_or other rest ≡ last_or other points)
  IsReduced points (err endless) = ⊥
  IsReduced points (err other) = Unit

  first_or-kept_points :
      (other p : Value) (rest : List Value) (keep : List ℕ)
      → In 0 keep
      → first_or other (kept_points 0 keep (p ∷ rest)) ≡ p
  first_or-kept_points other p rest keep m = rw (any-In (λ j. j == 0) 0 keep m refl) refl

  last_or-kept_points :
      (other : Value) (i : ℕ) (p : Value) (rest : List Value) (keep : List ℕ)
      → In (i + length rest) keep
      → last_or other (kept_points i keep (p ∷ rest)) ≡ last_or other (p ∷ rest)
  last_or-kept_points other i p [] keep m =
      rw (any-In (λ j. j == i) (i + 0) keep m (ground arith)) refl
  last_or-kept_points other i p (q ∷ rest) keep m =
      let n : In (suc i + length rest) keep =
        let e : i + suc (length rest) ≡ suc i + length rest = omega arith in
        subst (λ j. In j keep) e m in
      elim (Bool-cases (any (λ j. j == i) keep)) [
        | inl e ↦ rw e (last_or-kept_points p (suc i) q rest keep n)
        | inr e ↦ rw e (last_or-kept_points other (suc i) q rest keep n)
      ]

  either-IsReduced :
      (b : Bool) (points simplified : List Value) (t u : Tally)
      → IsReduced points (ok (simplified, t))
      → IsReduced points (ok (if b then (points, t) else (simplified, u)))
  either-IsReduced true points simplified t u h = λ other. (refl, refl)
  either-IsReduced false points simplified t u h = h

  taken_out-IsReduced :
      (points simplified : List Value) (t : Tally)
      → IsReduced points (ok (simplified, t))
      → IsReduced points (ok (taken_out math metres points simplified t))
  taken_out-IsReduced points simplified t h =
      either-IsReduced _ points simplified t
        (record t { removed = t.removed + (length points - length simplified) }) h

  finished-IsReduced :
      (p : Value) (rest : List Value) (t : Tally) (r : Result Trouble (ℕ × List ℕ))
      → HasKept (ends math metres (p ∷ rest)) r
      → IsReduced (p ∷ rest) (r >>= λ result. ok (finished math metres (p ∷ rest) t result))
  finished-IsReduced p rest t (ok (operations, keep)) h =
      taken_out-IsReduced (p ∷ rest) (kept_points 0 keep (p ∷ rest))
        (record t { operations = operations })
        λ other. (
          first_or-kept_points other p rest keep (h 0 (inl refl)),
          last_or-kept_points other 0 p rest keep (h (0 + length rest) (inr (inl (omega arith)))),
        )
  finished-IsReduced p rest t (err endless) h = h
  finished-IsReduced p rest t (err not_regional) h = tt
  finished-IsReduced p rest t (err too_complex) h = tt

  regional-IsReduced :
      (b : Bool) (points : List Value) (r : Result Trouble (List Value × Tally))
      → IsReduced points r
      → IsReduced points (if b then err not_regional else r)
  regional-IsReduced true points r h = tt
  regional-IsReduced false points r h = h

  line_loop-HasKept :
      (tolerance : Number) (p q : Value) (rest : List Value) (operations : ℕ)
      → HasKept
          (ends math metres (p ∷ q ∷ rest))
          (line_loop math metres tolerance (p ∷ q ∷ rest) operations)
  line_loop-HasKept tolerance p q rest operations =
      loop-HasKept (projected math metres (flat math metres (p ∷ q ∷ rest)))
        (math.mul tolerance tolerance) (2 * length (p ∷ q ∷ rest))
        ((0, length (p ∷ q ∷ rest) - 1) ∷ []) (ends math metres (p ∷ q ∷ rest)) operations
        (omega arith, tt) (omega arith)

  reduced-IsReduced :
      (tolerance : Number) (p q : Value) (rest : List Value) (t : Tally)
      → IsReduced (p ∷ q ∷ rest) (reduced math metres tolerance (p ∷ q ∷ rest) t)
  reduced-IsReduced tolerance p q rest t =
      regional-IsReduced (not (regional math metres (p ∷ q ∷ rest))) (p ∷ q ∷ rest) _ (
        finished-IsReduced p (q ∷ rest) t
          (line_loop math metres tolerance (p ∷ q ∷ rest) t.operations)
          (line_loop-HasKept tolerance p q rest t.operations))

  unchanged-IsReduced :
      (b : Bool) (points : List Value) (t : Tally) (r : Result Trouble (List Value × Tally))
      → IsReduced points r
      → IsReduced points (if b then ok (points, t) else r)
  unchanged-IsReduced true points t r h = λ other. (refl, refl)
  unchanged-IsReduced false points t r h = h

  -- Whatever the line and the tolerance, the loops over the pieces of the line end within twice as
  -- many rounds as it has points, and what is returned begins and ends with the same points.
  pub reduce-IsReduced :
      (tolerance : Number) (points : List Value) (t : Tally)
      → IsReduced points (reduce math metres tolerance points t)
  unfolding reduce
  reduce-IsReduced tolerance [] t = λ other. (refl, refl)
  reduce-IsReduced tolerance (p ∷ []) t = λ other. (refl, refl)
  reduce-IsReduced tolerance (p ∷ q ∷ []) t = λ other. (refl, refl)
  reduce-IsReduced tolerance (p ∷ q ∷ r ∷ rest) t =
      unchanged-IsReduced (ltb (length (p ∷ q ∷ r ∷ rest)) 3 || number_eq tolerance (int 0))
        (p ∷ q ∷ r ∷ rest) (record t { lines = suc t.lines }) _
        (reduced-IsReduced tolerance p q (r ∷ rest) (record t { lines = suc t.lines }))
