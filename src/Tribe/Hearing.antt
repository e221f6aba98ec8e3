-- ===== src/Tribe/Hearing.antt =====
-- What a node ends with when it handles messages one after another, in two orders.
use mathlib.Core.List.{lookup}
use snap.Base.{
  ℕ, ◌+◌, ◌%◌, ◌^◌, ◌≤◌, ◌<◌, ◌≡◌, ◌≢◌, refl, sym, ap, ◌∙◌, inl, inr, Bool, false, List, [], ◌∷◌,
  ◌++◌, map, Option, none, some, Text, ℕ_discrete, arith, All, All-append, length, Option-cases,
}
use snap.Base.Map.{put, lookup-put_cases}
use snap.Tribe.{
  Replica, Tribe, Message, AgreementMsg, PluginMsg, add_plugin_msg, add_agreement_msg, agreement_at,
  time_of, uuid_of, update_clock, is_duplicate, buffer_length,
}
use snap.Tribe.Handlers.{body, handle_message}
use snap.Tribe.Delivery.{remembered, ticked, accept-new}
use snap.Tribe.Ordering.{run, run_late}

-- The node handles one message after another.
unfoldable pub hear : Text → ℕ → List Message → Tribe → Option Tribe
hear local_name fuel [] t = some t
hear local_name fuel (m ∷ ms) t = elim (handle_message local_name fuel m t) [
  | none ↦ none
  | some (_, t1) ↦ hear local_name fuel ms t1
]

-- The message's time is one of the 512 from `base` on.
abbrev pub IsTimely : ℕ → Message → Type 0
IsTimely base m = (base ≤ time_of m) × (time_of m < base + buffer_length)

-- No message in the buffer has the UUID of this one.
abbrev pub IsUnseen : Tribe → Message → Type 0
IsUnseen t m =
    (slot : ℕ) (seen : Message)
    → lookup ℕ_discrete slot t.msg_buffer ≡ some seen
    → uuid_of seen ≢ uuid_of m

-- The messages have different UUIDs.
abbrev pub AreApart : List Message → Type 0
AreApart [] = Unit
AreApart (m ∷ ms) = All (λ k. uuid_of m ≢ uuid_of k) ms × AreApart ms

unfoldable clock_after : List Message → ℕ → ℕ
clock_after [] c = c
clock_after (m ∷ ms) c = clock_after ms (update_clock c (time_of m))

unfoldable buffer_after : List Message → List (ℕ × Message) → List (ℕ × Message)
buffer_after [] b = b
buffer_after (m ∷ ms) b = buffer_after ms (put ℕ_discrete (time_of m % buffer_length) m b)

abbrev after_all : List Message → Tribe → Replica → Tribe
after_all ms t r = record {
  clock = clock_after ms t.clock;
  msg_buffer = buffer_after ms t.msg_buffer;
  replica = r;
}

module _ (base : ℕ) (w : base + 512 < 2 ^ 64) where
  timely_clock :
      (m : Message) (c : ℕ)
      → IsTimely base m
      → c ≤ base + 512
      → update_clock c (time_of m) ≤ base + 512
  unfolding update_clock
  timely_clock m c i l = ground arith

  timely-new :
      (m : Message) (t : Tribe)
      → IsTimely base m
      → t.clock ≤ base + 512
      → IsUnseen t m
      → is_duplicate (ticked t m) m ≡ false
  unfolding is_duplicate
  timely-new m t i l u =
      let bound = timely_clock m t.clock i l in
      elim (Option-cases (lookup ℕ_discrete (time_of m % buffer_length) t.msg_buffer)) [
        | inl e ↦ ground arith
        | inr (seen, e) ↦ let other = u (time_of m % buffer_length) seen e in ground arith
      ]

  still-IsUnseen :
      (m k : Message) (t : Tribe) (r : Replica)
      → uuid_of m ≢ uuid_of k
      → IsUnseen t k
      → IsUnseen (record (remembered t m) { replica = r }) k
  still-IsUnseen m k t r n u slot seen h =
      elim (lookup-put_cases ℕ_discrete (time_of m % buffer_length) slot m seen t.msg_buffer h) [
        | inl (_, e) ↦ λ q. n (ap uuid_of e ∙ q)
        | inr (_, h1) ↦ u slot seen h1
      ]

  all-IsUnseen :
      (m : Message) (ms : List Message) (t : Tribe) (r : Replica)
      → All (λ k. uuid_of m ≢ uuid_of k) ms
      → All (IsUnseen t) ms
      → All (IsUnseen (record (remembered t m) { replica = r })) ms
  all-IsUnseen m [] t r n u = tt
  all-IsUnseen m (k ∷ ms) t r n u = (still-IsUnseen m k t r n.0 u.0, all-IsUnseen m ms t r n.1 u.1)

  handle_new :
      (local_name : Text) (fuel : ℕ) (m : Message) (t : Tribe) (r : Replica) (again : Bool)
      → is_duplicate (ticked t m) m ≡ false
      → body local_name fuel m t.replica ≡ some (again, r)
      → handle_message local_name fuel m t ≡ some (again, record (remembered t m) { replica = r })
  unfolding handle_message
  handle_new local_name fuel m t r again n e =
      rw (accept-new m (body local_name fuel m) t n, e) refl

  -- Messages that are new run through the bodies of their handlers.
  hear-run :
      (local_name : Text) (fuel : ℕ) (ms : List Message) (t : Tribe) (s : Replica)
      → t.clock ≤ base + 512
      → All (IsTimely base) ms
      → All (IsUnseen t) ms
      → AreApart ms
      → run local_name fuel ms t.replica ≡ some s
      → hear local_name fuel ms t ≡ some (after_all ms t s)
  unfolding clock_after buffer_after hear run
  hear-run local_name fuel [] t s l i u d h =
      let same : t.replica ≡ s = cc h in ap (λ r. some (record t { replica = r })) same
  hear-run local_name fuel (m ∷ ms) t s l i u d h =
      elim (Option-cases (body local_name fuel m t.replica)) [
        | inl e ↦
            let stuck : run local_name fuel (m ∷ ms) t.replica ≡ none = rw (e, run) refl in
            let impossible : none ≡ some s = sym stuck ∙ h in absurd (cc impossible)
        | inr ((again, r), e) ↦
            let t1 : Tribe = record (remembered t m) { replica = r } in
            let ran : run local_name fuel (m ∷ ms) t.replica ≡ run local_name fuel ms r =
              rw (e, run) refl in
            let handled : handle_message local_name fuel m t ≡ some (again, t1) =
              handle_new local_name fuel m t r again (timely-new m t i.0 l u.0) e in
            let rest =
              hear-run local_name fuel ms t1 s (timely_clock m t.clock i.0 l) i.1
                (all-IsUnseen m ms t r d.0 u.1) d.1 (sym ran ∙ h) in
            rw (handled, hear) rest
      ]

  clock_swap :
      (m n : Message) (c : ℕ)
      → IsTimely base m
      → IsTimely base n
      → update_clock (update_clock c (time_of n)) (time_of m)
        ≡ update_clock (update_clock c (time_of m)) (time_of n)
  unfolding update_clock
  clock_swap m n c i j = ground arith

  clock_after-last :
      (n : Message) (ms : List Message) (c : ℕ)
      → IsTimely base n
      → All (IsTimely base) ms
      → clock_after (n ∷ ms) c ≡ clock_after (ms ++ n ∷ []) c
  unfolding clock_after
  clock_after-last n [] c j i = refl
  clock_after-last n (m ∷ ms) c j i =
      ap (clock_after ms) (clock_swap m n c i.0 j)
      ∙ clock_after-last n ms (update_clock c (time_of m)) j i.1

apart_last :
    (n : Message) (ms : List Message)
    → All (λ k. uuid_of n ≢ uuid_of k) ms
    → AreApart ms
    → AreApart (ms ++ n ∷ [])
apart_last n [] d k = (tt, tt)
apart_last n (m ∷ ms) d k = (
  All-append (λ x. uuid_of m ≢ uuid_of x) ms (n ∷ []) k.0 (λ e. d.0 (sym e), tt),
  apart_last n ms d.1 k.1,
)

-- A node hears of new plugins of an agreement before it hears of the agreement itself. When the
-- message that creates the agreement is handled last, the handlers end, and leave the same clock and
-- the same agreements, members, work and waiting messages as when it is handled first, with the same
-- plugins in the same order, also when a plugin is announced more than once. Before that no agreement
-- has the name, nothing waits, and the fuel is more than the number of messages. The messages count
-- as new: their times are among the 512 from some base on, the clock is at most 512 past that base,
-- their UUIDs differ, and the buffer of seen messages has none of them.
pub late_agreement :
    (local_name : Text) (fuel base : ℕ) (n : AgreementMsg) (ms : List PluginMsg) (t : Tribe)
    → agreement_at t.replica n.agreement_name ≡ none
    → t.replica.intent_buffer ≡ []
    → All (λ m. m.agreement_name ≡ n.agreement_name) ms
    → length ms < fuel
    → base + 512 < 2 ^ 64
    → t.clock ≤ base + 512
    → All (IsTimely base) (add_agreement_msg n ∷ map add_plugin_msg ms)
    → All (IsUnseen t) (add_agreement_msg n ∷ map add_plugin_msg ms)
    → AreApart (add_agreement_msg n ∷ map add_plugin_msg ms)
    → (u v : Tribe) × (hear local_name fuel (add_agreement_msg n ∷ map add_plugin_msg ms) t
        ≡ some u)
      × (hear local_name fuel (map add_plugin_msg ms ++ add_agreement_msg n ∷ []) t ≡ some v)
      × (u.replica ≡ v.replica)
      × (u.clock ≡ v.clock)
late_agreement local_name fuel base n ms t e b p l w c i u d =
    let first : Message = add_agreement_msg n in
    let rest : List Message = map add_plugin_msg ms in
    let (s, early, late) = run_late local_name fuel n ms t.replica e b p l in
    (
      after_all (first ∷ rest) t s,
      after_all (rest ++ first ∷ []) t s,
      hear-run base w local_name fuel (first ∷ rest) t s c i u d early,
      hear-run base w local_name fuel (rest ++ first ∷ []) t s c
          (All-append (IsTimely base) rest (first ∷ []) i.1 (i.0, tt))
          (All-append (IsUnseen t) rest (first ∷ []) u.1 (u.0, tt)) (apart_last first rest d.0 d.1)
          late,
      refl,
      clock_after-last base w first rest t.clock i.0 i.1,
    )
