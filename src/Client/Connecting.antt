-- ===== src/Client/Connecting.antt =====
-- `ConnectFollower` with an odd number of hosts.
use mathlib.Core.Option.{some_inj}
use raftfs.Prelude.{
  leb, ℕ, zero, suc, ◌+◌, ◌-◌, ◌≤◌, ◌<◌, ◌≡◌, ◌⊎◌, inl, inr, refl, sym, ap, ◌∙◌, Bool, true, List,
  [], ◌∷◌, some, arith, length, get_elem?, Bool-cases,
}
use raftfs.Protocol.{Text}
use raftfs.Client.{FsClient, is_open, next_follower, try_followers, connect_follower}
use raftfs.Client.Hosts.{next_id, after_reset, reset_follower-in_range, missed_round}

laps : ℕ → ℕ → ℕ
laps n zero = 0
laps n (suc q) = n + laps n q

get_elem?-lt : (xs : List Text) (j : ℕ) (h : Text) → get_elem? xs j ≡ some h → j + 1 ≤ length xs
get_elem?-lt [] j h e = ground (arith, e)
get_elem?-lt (x ∷ xs) zero h e = omega arith
get_elem?-lt (x ∷ xs) (suc j) h e = omega (arith, get_elem?-lt xs j h e)

halves : (d : ℕ) → ((h : ℕ) × (d ≡ h + h)) ⊎ ((h : ℕ) × (d ≡ h + h + 1))
halves zero = inl (0, refl)
halves (suc d) = elim (halves d) [
  | inl (h, e) ↦ inr (h, omega arith)
  | inr (h, e) ↦ inl (h + 1, omega arith)
]

Nat-cases : (k : ℕ) → (k ≡ 0) ⊎ ((k' : ℕ) × (k ≡ suc k'))
Nat-cases zero = inl refl
Nat-cases (suc k) = inr (k, refl)

module _ (up : Text → Bool) where
  -- How far ahead host j is.
  rounds_to :
      (c : FsClient) (m j : ℕ)
      → length c.hosts ≡ m + m + 3
      → 1 ≤ c.follower_id
      → c.follower_id ≤ length c.hosts
      → j < length c.hosts
      → (k : ℕ) × (q : ℕ) × (c.follower_id + k + k ≡ j + 1 + laps (length c.hosts) q)
        × (k ≤ length c.hosts)
  unfolding laps
  rounds_to c m j odd lo hi lt = elim (Bool-cases (leb c.follower_id (j + 1))) [
    | inl ahead ↦
        let le : c.follower_id ≤ j + 1 = ground arith in
        elim (halves (j + 1 - c.follower_id)) [
          | inl (h, e) ↦ (h, 0, omega arith, omega arith)
          | inr (h, e) ↦ (h + m + 2, 1, omega arith, omega arith)
        ]
    | inr behind ↦
        let lt' : j + 1 < c.follower_id = ground arith in
        elim (halves (j + 1 + length c.hosts - c.follower_id)) [
          | inl (h, e) ↦ (h, 1, omega arith, omega arith)
          | inr (h, e) ↦ (h + m + 2, 2, omega arith, omega arith)
        ]
  ]

  opens_here :
      (c : FsClient) (j : ℕ) (h h0 : Text) (k q : ℕ)
      → k ≡ 0
      → c.follower_id ≤ length c.hosts
      → c.follower_id + k + k ≡ j + laps (length c.hosts) q
      → 1 ≤ j
      → get_elem? c.hosts (j - 1) ≡ some h
      → get_elem? c.hosts (c.follower_id - 1) ≡ some h0
      → up h ≡ true
      → up h0 ≡ true
  unfolding laps
  opens_here c j h h0 k zero first hi ahead j1 at_j at_f accepts =
      let same : c.follower_id ≡ j = omega arith in
      let e : h0 ≡ h =
        some_inj.0 (sym at_f ∙ ap (λ (i : ℕ). get_elem? c.hosts (i - 1)) same ∙ at_j) in
      rw e accepts
  opens_here c j h h0 k (suc q) first hi ahead j1 at_j at_f accepts = absurd (omega arith)

  next_round :
      (c : FsClient) (j k k' q : ℕ)
      → 2 ≤ length c.hosts
      → 1 ≤ c.follower_id
      → c.follower_id ≤ length c.hosts
      → k ≡ suc k'
      → c.follower_id + k + k ≡ j + laps (length c.hosts) q
      → 1 ≤ j
      → j ≤ length c.hosts
      → (q' : ℕ) × (1 ≤ (next_follower c).follower_id)
        × ((next_follower c).follower_id ≤ length c.hosts)
        × ((next_follower c).follower_id + k' + k' ≡ j + laps (length c.hosts) q')
  unfolding laps
  next_round c j k k' zero two lo hi more ahead j1 jn =
      elim (next_id c.follower_id (length c.hosts) two lo hi) [
        | inl (lt, e) ↦ (0, omega arith, omega arith, omega arith)
        | inr (ge, e) ↦ absurd (omega arith)
      ]
  next_round c j k k' (suc q) two lo hi more ahead j1 jn =
      elim (next_id c.follower_id (length c.hosts) two lo hi) [
        | inl (lt, e) ↦ (suc q, omega arith, omega arith, omega arith)
        | inr (ge, e) ↦ (q, omega arith, omega arith, omega arith)
      ]

  -- Where a host that accepts connections is k rounds ahead, so many tries find it, or one before it.
  try_followers-opens :
      (r k q : ℕ) (c : FsClient) (j : ℕ) (h : Text)
      → 2 ≤ length c.hosts
      → 1 ≤ c.follower_id
      → c.follower_id ≤ length c.hosts
      → c.follower_id + k + k ≡ j + laps (length c.hosts) q
      → 1 ≤ j
      → j ≤ length c.hosts
      → get_elem? c.hosts (j - 1) ≡ some h
      → up h ≡ true
      → k ≤ r
      → (c' : FsClient) × (try_followers up r c ≡ some c') × (is_open c'.follower_sock ≡ true)
  unfolding try_followers
  try_followers-opens zero k q c j h two lo hi ahead j1 jn at_j accepts le =
      let (h0, at_f, reset) = reset_follower-in_range up c lo hi in
      let here = opens_here c j h h0 k q (omega arith) hi ahead j1 at_j at_f accepts in
      (after_reset up c h0, reset, here)
  try_followers-opens (suc r) k q c j h two lo hi ahead j1 jn at_j accepts le =
      let (h0, at_f, reset) = reset_follower-in_range up c lo hi in
      elim (Bool-cases (up h0)) [
        | inl open_now ↦ (after_reset up c h0, rw (reset, open_now), open_now)
        | inr shut ↦ elim (Nat-cases k) [
          | inl first ↦
              absurd
                (ground (arith, shut, opens_here c j h h0 k q first hi ahead j1 at_j at_f accepts))
          | inr (k', more) ↦
              let next = next_follower (after_reset up c h0) in
              let (q', lo', hi', ahead') = next_round c j k k' q two lo hi more ahead j1 jn in
              let (c', e, found) =
                try_followers-opens r k' q' next j h two lo' hi' ahead' j1 jn at_j accepts
                  (omega arith) in
              (c', missed_round up r c h0 reset shut ∙ e, found)
        ]
      ]

  -- With an odd number of hosts, at least three, of which some host accepts connections,
  -- `ConnectFollower` ends connected, whatever host it starts from.
  pub connect_follower-odd :
      (c : FsClient) (m j : ℕ) (h : Text)
      → length c.hosts ≡ m + m + 3
      → 1 ≤ c.follower_id
      → c.follower_id ≤ length c.hosts
      → get_elem? c.hosts j ≡ some h
      → up h ≡ true
      → (c' : FsClient) × (connect_follower up c ≡ some (c', true))
  unfolding connect_follower
  connect_follower-odd c m j h odd lo hi at_j accepts =
      elim (Bool-cases (is_open c.follower_sock)) [
        | inl already ↦ (c, rw (already, already))
        | inr shut ↦
            let (k, q, ahead, le) =
              rounds_to c m j odd lo hi (omega (arith, get_elem?-lt c.hosts j h at_j)) in
            let e : j + 1 - 1 ≡ j = omega arith in
            let (c', found, opened) =
              try_followers-opens (length c.hosts) k q c (j + 1) h (omega arith) lo hi ahead
                (omega arith) (get_elem?-lt c.hosts j h at_j) (rw e at_j) accepts le in
            (c', rw (shut, found, opened))
      ]
