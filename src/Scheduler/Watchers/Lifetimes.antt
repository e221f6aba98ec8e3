-- ===== src/Scheduler/Watchers/Lifetimes.antt =====
-- Which watchers the events of a task reach, against the list of those that were made and not closed.
use mathlib.Core.List.{lookup}
use snap.Base.{
  ℕ, zero, suc, ◌≡◌, ◌≢◌, refl, sym, ap, ◌∙◌, subst, List, [], ◌∷◌, ◌++◌, none, some, Text,
  text_discrete, ite, if_pos, if_neg, length, get_elem?, All, arith, Option-cases, Bool-cases, inl,
  inr, take, ◌==◌, if◌then◌else◌, All-append,
}
use snap.Base.Map.{lookup-put, lookup-delete}
use snap.Scheduler.Watchers.{Collection, watchers_of, stored, rm}
use snap.Scheduler.Watchers.Slices.{NotIn, Unique, without, rm_loop-without}

watchers_of-stored :
    (t j : Text) (ws : List ℕ) (coll : Collection)
    → watchers_of j (stored t ws coll) ≡ ite (text_discrete t j) ws (watchers_of j coll)
watchers_of-stored t j [] coll = ground (arith, lookup-delete text_discrete t j coll)
watchers_of-stored t j (w ∷ ws) coll = ground (arith, lookup-put text_discrete t j (w ∷ ws) coll)

-- The table after rm of the watcher `w` of `t`.
abbrev pub IsWithout : Text → ℕ → Collection → Collection → Type 0
IsWithout t w coll coll' =
    (j : Text)
    → watchers_of j coll'
      ≡ ite (text_discrete t j) (without w (watchers_of j coll)) (watchers_of j coll)

pub ite-ext :
    {P : Type 0} {A : Type 0} (d : Dec P) (a a' b : A) → (P → a ≡ a') → ite d a b ≡ ite d a' b
ite-ext (yes p) a a' b h = ap (λ x. ite (yes p) x b) (h p)
ite-ext (no n) a a' b h = if_neg (no n) n a b ∙ sym (if_neg (no n) n a' b)

ite_same : {P : Type 0} {A : Type 0} (d : Dec P) (a b : A) → (P → a ≡ b) → b ≡ ite d a b
ite_same (yes p) a b h = sym (if_pos (yes p) p a b ∙ h p)
ite_same (no n) a b h = sym (if_neg (no n) n a b)

watchers_of-none :
    (t j : Text) (coll : Collection)
    → lookup text_discrete t coll ≡ none
    → t ≡ j
    → watchers_of j coll ≡ []
watchers_of-none t j coll h e = rw (sym e, watchers_of, h) refl

pub rm-IsWithout :
    (t : Text) (w : ℕ) (coll : Collection)
    → Unique (watchers_of t coll)
    → (coll' : Collection) × (rm t w coll ≡ some coll') × IsWithout t w coll coll'
unfolding rm
rm-IsWithout t w coll u = elim (Option-cases (lookup text_discrete t coll)) [
  | inl e ↦ (
    coll,
    ground arith,
    λ j.
        ite_same (text_discrete t j) (without w (watchers_of j coll)) (watchers_of j coll)
          (λ k. let n = watchers_of-none t j coll e k in ap (without w) n ∙ sym n),
  )
  | inr (ws, e) ↦
      let same : watchers_of t coll ≡ ws = ground arith in
      let (cells, len, run, reads) = rm_loop-without w [] ws (subst Unique same u) in
      (
        stored t (take len cells) coll,
        ground arith,
        λ j.
            watchers_of-stored t j (take len cells) coll
            ∙ ite-ext (text_discrete t j) (take len cells) (without w (watchers_of j coll))
                (watchers_of j coll)
                (λ k. reads ∙ ap (without w) (sym same ∙ ap (λ i. watchers_of i coll) k)),
      )
]

-- A watcher with the task that it watches, in the order of creation.
abbrev Active : Type 0
Active = List (ℕ × Text)

abbrev pub watching : Text → List (ℕ × Text) → List ℕ
watching task [] = []
watching task ((w, t) ∷ act) =
    ite (text_discrete t task) (w ∷ watching task act) (watching task act)

abbrev pub drop_id : ℕ → List (ℕ × Text) → List (ℕ × Text)
drop_id w [] = []
drop_id w ((v, t) ∷ act) = if v == w then drop_id w act else (v, t) ∷ drop_id w act

pub watching-drop_id :
    (task : Text) (w : ℕ) (act : List (ℕ × Text))
    → watching task (drop_id w act) ≡ without w (watching task act)
watching-drop_id task w [] = refl
watching-drop_id task w ((v, t) ∷ act) = ground (arith, watching-drop_id task w act)

pub watching-append :
    (task t : Text) (w : ℕ) (act : List (ℕ × Text))
    → watching task (act ++ (w, t) ∷ [])
      ≡ ite (text_discrete t task) (watching task act ++ w ∷ []) (watching task act)
watching-append task t w [] = ground arith
watching-append task t w ((v, s) ∷ act) = ground (arith, watching-append task t w act)

abbrev pub Owned : List Text → List (ℕ × Text) → Type 0
Owned tids act = All (λ e. get_elem? tids e.0 ≡ some e.1) act

pub NotIn-watching :
    (tids : List Text) (act : List (ℕ × Text)) (w : ℕ) (j : Text)
    → Owned tids act
    → get_elem? tids w ≢ some j
    → NotIn w (watching j act)
NotIn-watching tids [] w j o ne = tt
NotIn-watching tids ((v, t) ∷ act) w j o ne = elim (text_discrete t j) [
  | yes e ↦ rw (if_pos (text_discrete t j) e (v ∷ watching j act) (watching j act)) (
    (λ p. ne (ap (get_elem? tids) (sym p) ∙ o.0 ∙ ap some e)),
    NotIn-watching tids act w j o.1 ne,
  )
  | no n ↦
      rw (if_neg (text_discrete t j) n (v ∷ watching j act) (watching j act))
        (NotIn-watching tids act w j o.1 ne)
]

NotIn-without : (v w : ℕ) (ws : List ℕ) → NotIn v ws → NotIn v (without w ws)
NotIn-without v w [] h = tt
NotIn-without v w (x ∷ ws) h = elim (Bool-cases (x == w)) [
  | inl e ↦ rw (e) (NotIn-without v w ws h.1)
  | inr e ↦ rw (e) (h.0, NotIn-without v w ws h.1)
]

pub Unique-without : (w : ℕ) (ws : List ℕ) → Unique ws → Unique (without w ws)
Unique-without w [] u = tt
Unique-without w (v ∷ ws) u = elim (Bool-cases (v == w)) [
  | inl e ↦ rw (e) (Unique-without w ws u.1)
  | inr e ↦ rw (e) (NotIn-without v w ws u.0, Unique-without w ws u.1)
]

pub Unique-append : (w : ℕ) (ws : List ℕ) → NotIn w ws → Unique ws → Unique (ws ++ w ∷ [])
Unique-append w [] n u = (tt, tt)
Unique-append w (v ∷ ws) n u =
    (All-append (λ x. x ≢ v) ws (w ∷ []) u.0 ((λ e. n.0 (sym e)), tt), Unique-append w ws n.1 u.1)

pub Owned-drop_id :
    (tids : List Text) (w : ℕ) (act : List (ℕ × Text)) → Owned tids act → Owned tids (drop_id w act)
Owned-drop_id tids w [] o = tt
Owned-drop_id tids w ((v, t) ∷ act) o = elim (Bool-cases (v == w)) [
  | inl e ↦ rw (e) (Owned-drop_id tids w act o.1)
  | inr e ↦ rw (e) (o.0, Owned-drop_id tids w act o.1)
]

get_elem?-snoc :
    (tids : List Text) (x : Text) (w : ℕ) (t : Text)
    → get_elem? tids w ≡ some t
    → get_elem? (tids ++ x ∷ []) w ≡ some t
get_elem?-snoc [] x w t h = absurd (ground arith)
get_elem?-snoc (s ∷ tids) x zero t h = h
get_elem?-snoc (s ∷ tids) x (suc w) t h = get_elem?-snoc tids x w t h

pub get_elem?-last :
    (tids : List Text) (x : Text) → get_elem? (tids ++ x ∷ []) (length tids) ≡ some x
get_elem?-last [] x = refl
get_elem?-last (s ∷ tids) x = get_elem?-last tids x

pub get_elem?-length : (tids : List Text) → get_elem? tids (length tids) ≡ none
get_elem?-length [] = refl
get_elem?-length (s ∷ tids) = get_elem?-length tids

pub Owned-snoc :
    (tids : List Text) (x : Text) (act : List (ℕ × Text))
    → Owned tids act
    → Owned (tids ++ x ∷ []) act
Owned-snoc tids x [] o = tt
Owned-snoc tids x ((w, t) ∷ act) o = (get_elem?-snoc tids x w t o.0, Owned-snoc tids x act o.1)

pub length-snoc : (tids : List Text) (x : Text) → length (tids ++ x ∷ []) ≡ suc (length tids)
length-snoc [] x = refl
length-snoc (s ∷ tids) x = ap suc (length-snoc tids x)
