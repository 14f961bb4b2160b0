-- ===== src/Log/Template.antt =====
-- `write_interpolated` of `rivet/src/log.rs`, and a scan of the template in one pass.
use rivet_rtos.Base.{
  ℕ, zero, suc, ◌+◌, ◌≤◌, ◌<◌, ◌≡◌, refl, ap, sym, ◌&&◌, none, some, List, [], ◌∷◌, ◌++◌, ◌==◌,
  if◌then◌else◌, length, arith, Bool-cases, Option-cases, inl, inr, subst,
}
use rivet_rtos.Log.{LogArg, find_hole, take, drop, fill_hole, next_args, holes, write_interpolated}

module _ (display : LogArg → List ℕ) where
  -- Every `{}` gives way to its argument, from left to right.
  unfoldable pub render : List ℕ → List LogArg → List ℕ
  render [] args = []
  render (c ∷ []) args = c ∷ []
  render (c ∷ d ∷ rest) args =
      let filled = fill_hole display args ++ render rest (next_args args) in
      let kept = c ∷ render (d ∷ rest) args in if c == b'{' && d == b'}' then filled else kept

  render-none : (msg : List ℕ) (args : List LogArg) → find_hole msg ≡ none → render msg args ≡ msg
  unfolding find_hole render
  render-none [] args e = refl
  render-none (c ∷ []) args e = refl
  render-none (c ∷ d ∷ rest) args e = elim (Bool-cases (c == b'{' && d == b'}')) [
    | inl hole ↦ absurd (let bad : some 0 ≡ none = rw hole at e in cc)
    | inr plain ↦ elim (Option-cases (find_hole (d ∷ rest))) [
      | inl missing ↦ rw plain (ap (λ r. c ∷ r) (render-none (d ∷ rest) args missing))
      | inr (pos, some_) ↦ absurd (let bad : some (suc pos) ≡ none = rw (plain, some_) at e in cc)
    ]
  ]

  -- The text up to the first hole stays.
  render-some :
      (msg : List ℕ) (args : List LogArg) (pos : ℕ)
      → find_hole msg ≡ some pos
      → (render msg args
          ≡ take pos msg
            ++ (fill_hole display args ++ render (drop (pos + 2) msg) (next_args args)))
        × (length (drop (pos + 2) msg) + 2 ≤ length msg)
  unfolding find_hole render take drop
  render-some [] args pos e = cc
  render-some (c ∷ []) args pos e = cc
  render-some (c ∷ d ∷ rest) args pos e = elim (Bool-cases (c == b'{' && d == b'}')) [
    | inl hole ↦
        let found : some 0 ≡ some pos = rw hole at e in
        let z : 0 ≡ pos = cc in
        subst
          (λ p.
            (render (c ∷ d ∷ rest) args
              ≡ take p (c ∷ d ∷ rest)
                ++ (fill_hole display args
                    ++ render (drop (p + 2) (c ∷ d ∷ rest)) (next_args args)))
            × (length (drop (p + 2) (c ∷ d ∷ rest)) + 2 ≤ length (c ∷ d ∷ rest)))
          z (rw hole refl, omega arith)
    | inr plain ↦ elim (Option-cases (find_hole (d ∷ rest))) [
      | inl missing ↦ absurd (let bad : none ≡ some pos = rw (plain, missing) at e in cc)
      | inr (q, some_) ↦
          let later : some (suc q) ≡ some pos = rw (plain, some_) at e in
          let s : suc q ≡ pos = cc in
          let (same, len) = render-some (d ∷ rest) args q some_ in
          subst
            (λ p.
              (render (c ∷ d ∷ rest) args
                ≡ take p (c ∷ d ∷ rest)
                  ++ (fill_hole display args
                      ++ render (drop (p + 2) (c ∷ d ∷ rest)) (next_args args)))
              × (length (drop (p + 2) (c ∷ d ∷ rest)) + 2 ≤ length (c ∷ d ∷ rest)))
            s
            (let e2 : suc q + 2 ≡ suc (q + 2) = omega arith in
              rw (e2, plain) (ap (λ r. c ∷ r) same, omega (arith, len)))
    ]
  ]

  holes-render :
      (fuel : ℕ) (msg : List ℕ) (args : List LogArg)
      → length msg < fuel
      → holes display fuel msg args ≡ some (render msg args)
  unfolding holes
  holes-render zero msg args h = absurd (omega arith)
  holes-render (suc fuel) msg args h = elim (Option-cases (find_hole msg)) [
    | inl missing ↦ rw (missing, holes) (ap some (sym (render-none msg args missing)))
    | inr (pos, some_) ↦
        let (same, len) = render-some msg args pos some_ in
        let rest = holes-render fuel (drop (pos + 2) msg) (next_args args) (omega arith) in
        rw (some_, holes, rest) (ap some (sym same))
  ]

  -- The loop ends, with the text in which every `{}` is filled.
  pub write_interpolated-render :
      (msg : List ℕ) (arg0 arg1 : LogArg)
      → write_interpolated display msg arg0 arg1 ≡ some (render msg (arg0 ∷ arg1 ∷ []))
  unfolding write_interpolated
  write_interpolated-render msg arg0 arg1 =
      holes-render (suc (length msg)) msg (arg0 ∷ arg1 ∷ []) (omega arith)
