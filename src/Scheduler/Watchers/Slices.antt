-- ===== src/Scheduler/Watchers/Slices.antt =====
-- The loop of rm over the slice that it shortens.
use snap.Base.{
  ℕ, suc, ◌-◌, ◌≡◌, ◌≢◌, refl, sym, ap, ◌∙◌, List, [], ◌∷◌, ◌++◌, some, length, get_elem?, take,
  drop, length-append, ℕ_discrete, ◌==◌, if◌then◌else◌, All, All-append, arith, append_assoc, subst,
}
use snap.Scheduler.Watchers.{cut, rm_loop}

abbrev pub NotIn : ℕ → List ℕ → Type 0
NotIn w ws = All (λ v. v ≢ w) ws

-- No watcher is listed twice.
abbrev pub Unique : List ℕ → Type 0
Unique [] = Unit
Unique (w ∷ ws) = NotIn w ws × Unique ws

abbrev pub without : ℕ → List ℕ → List ℕ
without w [] = []
without w (v ∷ ws) = if v == w then without w ws else v ∷ without w ws

pub without_absent : (w : ℕ) (ws : List ℕ) → NotIn w ws → without w ws ≡ ws
without_absent w [] h = refl
without_absent w (v ∷ ws) h = ground (arith, without_absent w ws)

get_elem?-append :
    (xs : List ℕ) (y : ℕ) (ys : List ℕ) → get_elem? (xs ++ y ∷ ys) (length xs) ≡ some y
get_elem?-append [] y ys = refl
get_elem?-append (x ∷ xs) y ys = get_elem?-append xs y ys

take-append : (xs ys : List ℕ) → take (length xs) (xs ++ ys) ≡ xs
take-append [] ys = refl
take-append (x ∷ xs) ys = ap (λ l. x ∷ l) (take-append xs ys)

take-length : (xs : List ℕ) → take (length xs) xs ≡ xs
take-length [] = refl
take-length (x ∷ xs) = ap (λ l. x ∷ l) (take-length xs)

drop-append : (xs : List ℕ) (y : ℕ) (ys : List ℕ) → drop (suc (length xs)) (xs ++ y ∷ ys) ≡ ys
drop-append [] y ys = refl
drop-append (x ∷ xs) y ys = drop-append xs y ys

rm_loop-skip :
    (w : ℕ) (xs : List ℕ) (y : ℕ) (ys : List ℕ) (n len : ℕ)
    → y ≢ w
    → rm_loop w (length xs) (suc n) (xs ++ y ∷ ys) len
      ≡ rm_loop w (suc (length xs)) n (xs ++ y ∷ ys) len
unfolding rm_loop
rm_loop-skip w xs y ys n len ne = ground (arith, get_elem?-append xs y ys)

length-snoc : (xs : List ℕ) (y : ℕ) → length (xs ++ y ∷ []) ≡ suc (length xs)
length-snoc [] y = refl
length-snoc (x ∷ xs) y = ap suc (length-snoc xs y)

-- One cell further.
rm_loop-snoc :
    (w : ℕ) (xs : List ℕ) (y : ℕ) (ys : List ℕ) (n len : ℕ)
    → y ≢ w
    → rm_loop w (length xs) (suc n) (xs ++ y ∷ ys) len
      ≡ rm_loop w (length (xs ++ y ∷ [])) n ((xs ++ y ∷ []) ++ ys) len
rm_loop-snoc w xs y ys n len ne =
    rm_loop-skip w xs y ys n len ne
    ∙ ap (λ i. rm_loop w i n (xs ++ y ∷ ys) len) (sym (length-snoc xs y))
    ∙ ap (λ l. rm_loop w (length (xs ++ y ∷ [])) n l len) (sym (append_assoc xs (y ∷ []) ys))

rm_loop_absent :
    (w : ℕ) (xs ys : List ℕ) (len : ℕ)
    → NotIn w ys
    → rm_loop w (length xs) (length ys) (xs ++ ys) len ≡ some (xs ++ ys, len)
rm_loop_absent w xs [] len h = unfold rm_loop in refl
rm_loop_absent w xs (y ∷ ys) len h =
    rm_loop-snoc w xs y ys (length ys) len h.0
    ∙ rm_loop_absent w (xs ++ y ∷ []) ys len h.1
    ∙ ap (λ l. some (l, len)) (append_assoc xs (y ∷ []) ys)

abbrev last : ℕ → List ℕ → ℕ
last v [] = v
last v (x ∷ l) = last x l

drop-length : (v : ℕ) (l : List ℕ) → drop (length l) (v ∷ l) ≡ last v l ∷ []
drop-length v [] = refl
drop-length v (x ∷ l) = drop-length x l

length_middle :
    (xs : List ℕ) (w : ℕ) (ys : List ℕ) → length (xs ++ w ∷ ys) ≡ suc (length (xs ++ ys))
length_middle [] w ys = refl
length_middle (x ∷ xs) w ys = ap suc (length_middle xs w ys)

length_pred : (xs : List ℕ) (w : ℕ) (ys : List ℕ) → length (xs ++ w ∷ ys) - 1 ≡ length (xs ++ ys)
length_pred xs w ys = omega (arith, length_middle xs w ys)

drop_last :
    (xs : List ℕ) (w : ℕ) (ys : List ℕ) → drop (length (xs ++ ys)) (xs ++ w ∷ ys) ≡ last w ys ∷ []
drop_last [] w ys = drop-length w ys
drop_last (x ∷ xs) w ys = drop_last xs w ys

cut_middle :
    (xs : List ℕ) (w : ℕ) (ys : List ℕ)
    → cut (length xs) (length (xs ++ w ∷ ys)) (xs ++ w ∷ ys) ≡ xs ++ (ys ++ last w ys ∷ [])
unfolding cut
cut_middle xs w ys =
    rw
      (
        take-append xs (w ∷ ys),
        take-length (xs ++ w ∷ ys),
        drop-append xs w ys,
        length_pred xs w ys,
      )
      (ap (λ l. xs ++ (ys ++ l)) (drop_last xs w ys))

rm_loop-cut :
    (w : ℕ) (xs ys : List ℕ) (n : ℕ)
    → rm_loop w (length xs) (suc n) (xs ++ w ∷ ys) (length (xs ++ w ∷ ys))
      ≡ rm_loop w
          (suc (length xs))
          n
          (cut (length xs) (length (xs ++ w ∷ ys)) (xs ++ w ∷ ys))
          (length (xs ++ w ∷ ys) - 1)
unfolding rm_loop
rm_loop-cut w xs ys n = ground (arith, get_elem?-append xs w ys, length-append xs (w ∷ ys))

NotIn-last : (w z : ℕ) (zs : List ℕ) → z ≢ w → NotIn w zs → last z zs ≢ w
NotIn-last w z [] ne h = ne
NotIn-last w z (x ∷ zs) ne h = NotIn-last w x zs h.0 h.1

rm_loop_rest :
    (w : ℕ) (xs ys : List ℕ) (len : ℕ)
    → NotIn w ys
    → rm_loop w (suc (length xs)) (length ys) (xs ++ (ys ++ last w ys ∷ [])) len
      ≡ some (xs ++ (ys ++ last w ys ∷ []), len)
rm_loop_rest w xs [] len h = unfold rm_loop in refl
rm_loop_rest w xs (z ∷ zs) len h =
    ap (λ i. rm_loop w i (suc (length zs)) cells len) (sym (length-snoc xs z))
    ∙ ap (λ n. rm_loop w (length (xs ++ z ∷ [])) n cells len) (sym (length-snoc zs (last z zs)))
    ∙ ap (λ l. rm_loop w (length (xs ++ z ∷ [])) (length (zs ++ last z zs ∷ [])) l len) (sym again)
    ∙ rm_loop_absent w (xs ++ z ∷ []) (zs ++ last z zs ∷ []) len
        (All-append (λ v. v ≢ w) zs (last z zs ∷ []) h.1 (NotIn-last w z zs h.0 h.1, tt))
    ∙ ap (λ l. some (l, len)) again
  where
    cells : List ℕ
    cells = xs ++ (z ∷ zs ++ last z zs ∷ [])

    again : (xs ++ z ∷ []) ++ (zs ++ last z zs ∷ []) ≡ xs ++ (z ∷ zs ++ last z zs ∷ [])
    again = append_assoc xs (z ∷ []) (zs ++ last z zs ∷ [])

-- The loop ends with some array and length, of which the slice reads `ws`.
abbrev pub EndsWith : ℕ → List ℕ → List ℕ → List ℕ → Type 0
EndsWith w xs ys ws =
    (cells : List ℕ) × (len : ℕ) × (rm_loop w (length xs) (length ys) (xs ++ ys) (length (xs ++ ys))
      ≡ some (cells, len))
    × (take len cells ≡ ws)

rm_loop_hit : (w : ℕ) (xs ys : List ℕ) → NotIn w ys → EndsWith w xs (w ∷ ys) (xs ++ ys)
rm_loop_hit w xs ys h = (
  xs ++ (ys ++ last w ys ∷ []),
  length (xs ++ w ∷ ys) - 1,
  rm_loop-cut w xs ys (length ys)
      ∙ ap (λ l. rm_loop w (suc (length xs)) (length ys) l (length (xs ++ w ∷ ys) - 1))
          (cut_middle xs w ys)
      ∙ rm_loop_rest w xs ys (length (xs ++ w ∷ ys) - 1) h,
  ap (λ n. take n (xs ++ (ys ++ last w ys ∷ []))) (length_pred xs w ys)
      ∙ ap (take (length (xs ++ ys))) (sym (append_assoc xs ys (last w ys ∷ [])))
      ∙ take-append (xs ++ ys) (last w ys ∷ []),
)

without_head : (w y : ℕ) (ys : List ℕ) → y ≡ w → NotIn w ys → without w (y ∷ ys) ≡ ys
without_head w y ys e h = ground (arith, without_absent w ys h)

without_skip : (w y : ℕ) (ys : List ℕ) → y ≢ w → without w (y ∷ ys) ≡ y ∷ without w ys
without_skip w y ys ne = ground arith

-- From any cell on, the loop ends with the slice without the watcher.
pub rm_loop-without : (w : ℕ) (xs ys : List ℕ) → Unique ys → EndsWith w xs ys (xs ++ without w ys)
rm_loop-without w xs [] u =
    (xs ++ [], length (xs ++ []), unfold rm_loop in refl, take-length (xs ++ []))
rm_loop-without w xs (y ∷ ys) u = elim (ℕ_discrete y w) [
  | yes e ↦
      let h : NotIn w ys = subst (λ v. NotIn v ys) e (u.0) in
      subst (EndsWith w xs (y ∷ ys)) (ap (λ l. xs ++ l) (sym (without_head w y ys e h)))
        (subst (λ v. EndsWith w xs (v ∷ ys) (xs ++ ys)) (sym e) (rm_loop_hit w xs ys h))
  | no ne ↦
      let (cells, len, run, reads) = rm_loop-without w (xs ++ y ∷ []) ys u.1 in
      (
        cells,
        len,
        rm_loop-snoc w xs y ys (length ys) (length (xs ++ y ∷ ys)) ne
            ∙ ap
                (λ l.
                  rm_loop w (length (xs ++ y ∷ [])) (length ys) ((xs ++ y ∷ []) ++ ys) (length l))
                (sym (append_assoc xs (y ∷ []) ys))
            ∙ run,
        reads
            ∙ append_assoc xs (y ∷ []) (without w ys)
            ∙ ap (λ l. xs ++ l) (sym (without_skip w y ys ne)),
      )
]
