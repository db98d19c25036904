-- ===== src/Brutal/Recent.antt =====
-- The slots after a history of events, and what the recent ones among them hold.
use qperf_go.Prelude.{
  ℕ, ◌+◌, ◌%◌, ◌≤◌, ◌≡◌, refl, ◌⊎◌, inr, ◌&&◌, List, [], ◌∷◌, ◌==◌, ltb, if◌then◌else◌, arith, u64,
}

-- What one event brings, in whole seconds since 1970.
pub record Batch : Type 0 where
  pub at : ℕ
  pub acks : ℕ
  pub losses : ℕ

-- The packets of one kind in a history, newest first, that came in the five seconds up to `now`.
abbrev pub recent : (Batch → ℕ) → ℕ → List Batch → ℕ
recent g now [] = 0
recent g now (e ∷ es) = (if ltb now (e.at + 5) then g e else 0) + recent g now es

-- No event is newer than one before it in the list.
abbrev pub Ordered : ℕ → List Batch → Type 0
Ordered now [] = 0 ≤ now
Ordered now (e ∷ es) = (e.at ≤ now) × Ordered e.at es

-- The second of the latest event that slot `i` counts.
abbrev pub latest : ℕ → List Batch → ℕ
latest i [] = 0
latest i (e ∷ es) = if (e.at % 5) == i then e.at else latest i es

-- What slot `i` holds of one kind of packets.
abbrev pub tally : (Batch → ℕ) → ℕ → List Batch → ℕ
tally g i [] = 0
tally g i (e ∷ es) =
    if (e.at % 5) == i
    then (if latest i es == e.at then u64 (tally g i es + g e) else g e)
    else tally g i es

-- The packets of slot `i` after second `now - 5`.
abbrev pub of_slot : (Batch → ℕ) → ℕ → ℕ → List Batch → ℕ
of_slot g i now [] = 0
of_slot g i now (e ∷ es) =
    (if ((e.at % 5) == i) && ltb now (e.at + 5) then g e else 0) + of_slot g i now es

latest-le : (i now : ℕ) (es : List Batch) → Ordered now es → latest i es ≤ now
latest-le i now [] h = omega arith
latest-le i now (e ∷ es) h = ground (arith, latest-le i e.at es h.1)

-- A slot counts events of its own seconds only.
latest-mod : (g : Batch → ℕ) (i : ℕ) (es : List Batch) → (latest i es % 5 ≡ i) ⊎ (tally g i es ≡ 0)
latest-mod g i [] = inr refl
latest-mod g i (e ∷ es) = ground (arith, latest-mod g i es)

Ordered-later : (n m : ℕ) (es : List Batch) → n ≤ m → Ordered n es → Ordered m es
Ordered-later n m [] h k = omega arith
Ordered-later n m (e ∷ es) h k = (omega (arith, h, k.0), k.1)

tally-of_slot :
    (g : Batch → ℕ) (i now : ℕ) (es : List Batch)
    → Ordered now es
    → u64 (if ltb now (latest i es + 5) then tally g i es else 0) ≡ u64 (of_slot g i now es)
tally-of_slot g i now [] h = ground arith
tally-of_slot g i now (e ∷ es) h = ground (
  arith,
  tally-of_slot g i now es (Ordered-later e.at now es h.0 h.1),
  latest-le i e.at es h.1,
  latest-mod g i es,
)

-- The five slots share the recent packets out among them.
pub of_slots-recent :
    (g : Batch → ℕ) (now : ℕ) (es : List Batch)
    → of_slot g 0 now es
        + of_slot g 1 now es
        + of_slot g 2 now es
        + of_slot g 3 now es
        + of_slot g 4 now es
      ≡ recent g now es
of_slots-recent g now [] = refl
of_slots-recent g now (e ∷ es) = ground (arith, of_slots-recent g now es)

-- What the code's test lets slot `i` contribute right after event `e`.
pub contribution :
    (g : Batch → ℕ) (i : ℕ) (e : Batch) (es : List Batch)
    → Ordered e.at es
    → u64 (if ltb (latest i (e ∷ es) + 5) e.at then 0 else tally g i (e ∷ es))
      ≡ u64 (of_slot g i e.at (e ∷ es))
contribution g i e es h =
    ground (arith, tally-of_slot g i e.at (e ∷ es) (omega arith, h), latest-mod g i es)
