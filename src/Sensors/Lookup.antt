-- ===== src/Sensors/Lookup.antt =====
-- The lookup of a logical channel against the list of all channels, pod after pod.
use power_monitoring.Base.{
  ℕ, zero, suc, ◌+◌, ◌-◌, ◌≤◌, ◌<◌, ◌≡◌, refl, ap, ◌∙◌, none, List, [], ◌∷◌, ◌++◌, arith, length,
  get_elem?, take, length-append, All, u8,
}
use power_monitoring.Sensors.{
  PhysicalChannel, PodState, SensorSnapshot, find_channel, logical_channel,
}

module _ {F : Type 0} where
  -- All channels in the order of their pods.
  abbrev pub flat_channels : List (PodState F) → List (PhysicalChannel F)
  flat_channels [] = []
  flat_channels (p ∷ ps) = p.channels ++ flat_channels ps

  -- The count of each pod is that of the channels which it holds.
  abbrev pub Counted : List (PodState F) → Type 0
  Counted = All (λ p. p.num_channels ≡ length p.channels)

  -- The snapshot's counters agree with its pods, and the channels are numbered in a byte.
  pub record IsConsistent (snap : SensorSnapshot F) : Type 0 where
    pub counted : Counted (take snap.num_pods snap.pods)
    pub total : snap.total_logical_channels ≡ length (flat_channels (take snap.num_pods snap.pods))
    pub small : snap.total_logical_channels < 256

get_elem?-append_left {ℓ} :
    {A : Type ℓ} (xs ys : List A) (i : ℕ) → i < length xs → get_elem? (xs ++ ys) i ≡ get_elem? xs i
get_elem?-append_left [] ys i h = absurd (omega arith)
get_elem?-append_left (x ∷ xs) ys zero h = refl
get_elem?-append_left (x ∷ xs) ys (suc i) h = get_elem?-append_left xs ys i (omega arith)

get_elem?-append_right {ℓ} :
    {A : Type ℓ} (xs ys : List A) (i : ℕ)
    → length xs ≤ i
    → get_elem? (xs ++ ys) i ≡ get_elem? ys (i - length xs)
get_elem?-append_right [] ys i h = ap (get_elem? ys) (omega arith)
get_elem?-append_right (x ∷ xs) ys zero h = absurd (omega arith)
get_elem?-append_right (x ∷ xs) ys (suc i) h =
    get_elem?-append_right xs ys i (omega arith) ∙ ap (get_elem? ys) (omega arith)

get_elem?-past {ℓ} : {A : Type ℓ} (xs : List A) (i : ℕ) → length xs ≤ i → get_elem? xs i ≡ none
get_elem?-past [] i h = refl
get_elem?-past (x ∷ xs) zero h = absurd (omega arith)
get_elem?-past (x ∷ xs) (suc i) h = get_elem?-past xs i (omega arith)

module _ {F : Type 0} where
  find_channel_lem :
      (ps : List (PodState F)) (logical ch : ℕ)
      → Counted ps
      → logical ≤ ch
      → logical + length (flat_channels ps) < 256
      → find_channel ps logical ch ≡ get_elem? (flat_channels ps) (ch - logical)
  unfolding find_channel
  find_channel_lem [] logical ch c l h = refl
  find_channel_lem (p ∷ ps) logical ch c l h = ground (
    arith,
    c.0,
    length-append p.channels (flat_channels ps),
    get_elem?-append_left p.channels (flat_channels ps) (ch - logical),
    get_elem?-append_right p.channels (flat_channels ps) (ch - logical),
    find_channel_lem ps (u8 (logical + p.num_channels)) ch c.1,
    ap (get_elem? (flat_channels ps)) step,
  )
    where
      step : ch - u8 (logical + p.num_channels) ≡ ch - logical - length p.channels
      step = omega (arith, c.0, length-append p.channels (flat_channels ps))

  -- In a consistent snapshot, looking up a logical channel reads that position of the list of all
  -- channels, pod after pod, and finds nothing exactly past its end.
  pub logical_channel-get_elem? :
      (snap : SensorSnapshot F) (ch : ℕ)
      → IsConsistent snap
      → logical_channel snap ch ≡ get_elem? (flat_channels (take snap.num_pods snap.pods)) ch
  unfolding logical_channel
  logical_channel-get_elem? snap ch v = ground (
    arith,
    find_channel_lem (take snap.num_pods snap.pods) 0 ch v.counted,
    get_elem?-past (flat_channels (take snap.num_pods snap.pods)) ch,
  )
