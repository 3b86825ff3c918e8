-- ===== src/Client/Parity.antt =====
-- `ConnectFollower` with an even number of hosts.

use raftfs.Prelude.{
  ℕ, zero, suc, ◌+◌, ◌-◌, ◌%◌, ◌≤◌, ◌≡◌, inl, inr, sym, ◌∙◌, Bool, false, some, arith, length,
  get_elem?,
}
use raftfs.Protocol.{Text}
use raftfs.Client.{FsClient, is_open, next_follower, try_followers, connect_follower}
use raftfs.Client.Hosts.{next_id, next_in_range, after_reset, reset_follower-in_range, missed_round}

module _ (up : Text → Bool) where
  parity_stays :
      (f n m : ℕ)
      → n ≡ m + m + 2
      → 1 ≤ f
      → f ≤ n
      → (i : ℕ) → (i + ((f + 1) % n + 1)) % 2 ≡ (i + f) % 2
  parity_stays f n m even lo hi i = elim (next_id f n (omega arith) lo hi) [
    | inl (lt, e) ↦ omega arith
    | inr (ge, e) ↦ omega arith
  ]

  -- Every host whose id has the parity of the follower's refuses connections. The one at i, counted
  -- from 0, has the id i + 1.
  abbrev pub AllDown : FsClient → Type 0
  AllDown c =
      (i : ℕ) (h : Text) → get_elem? c.hosts i ≡ some h → (i + c.follower_id) % 2 ≡ 1 → up h ≡ false

  try_followers-even :
      (r m : ℕ) (c : FsClient)
      → length c.hosts ≡ m + m + 2
      → 1 ≤ c.follower_id
      → c.follower_id ≤ length c.hosts
      → AllDown c
      → (c' : FsClient) × (try_followers up r c ≡ some c') × (is_open c'.follower_sock ≡ false)
  unfolding try_followers
  try_followers-even zero m c even lo hi down =
      let (h, at_f, reset) = reset_follower-in_range up c lo hi in
      (after_reset up c h, reset, down (c.follower_id - 1) h at_f (omega arith))
  try_followers-even (suc r) m c even lo hi down =
      let (h, at_f, reset) = reset_follower-in_range up c lo hi in
      let shut = down (c.follower_id - 1) h at_f (omega arith) in
      let stays = parity_stays c.follower_id (length c.hosts) m even lo hi in
      let (lo', hi') = next_in_range c.follower_id (length c.hosts) (omega arith) lo hi in
      let (c', e, closed) =
        try_followers-even r m (next_follower (after_reset up c h)) even lo' hi'
          (λ i h' at_i odd. down i h' at_i (sym (stays i) ∙ odd)) in
      (c', missed_round up r c h reset shut ∙ e, closed)

  -- With an even number of hosts, a client without an open socket ends `ConnectFollower` without a
  -- connection if the hosts whose ids have the parity of its follower's are down, whether or not the
  -- others accept connections.
  pub connect_follower-even :
      (c : FsClient) (m : ℕ)
      → length c.hosts ≡ m + m + 2
      → 1 ≤ c.follower_id
      → c.follower_id ≤ length c.hosts
      → is_open c.follower_sock ≡ false
      → AllDown c
      → (c' : FsClient) × (connect_follower up c ≡ some (c', false))
  unfolding connect_follower
  connect_follower-even c m even lo hi shut down =
      let (c', e, closed) = try_followers-even (length c.hosts) m c even lo hi down in
      (c', rw (shut, e, closed))
