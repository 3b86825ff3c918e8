-- ===== src/Client/Hosts.antt =====
-- The hosts that `ConnectFollower` tries, one round after the other.

use native.Mathlib.Nat.{mod-eq_of_lt, mod-eq-sub-mod}
use raftfs.Prelude.{
  ltb, drop-get_elem?, ℕ, zero, suc, ◌+◌, ◌-◌, ◌%◌, ◌≤◌, ◌<◌, ◌≡◌, ◌⊎◌, inl, inr, ap, ◌∙◌, Bool,
  false, List, some, arith, length, get_elem?, Bool-cases, pos,
}
use raftfs.Protocol.{Text}
use raftfs.Client.{FsClient, host_of, next_follower, reset_follower, try_followers}

pub in_range :
    (i : ℕ) (hosts : List Text) → i < length hosts → (h : Text) × (get_elem? hosts i ≡ some h)
in_range i hosts lt = let (h, e, rest) = drop-get_elem? i hosts lt in (h, e)

pub host_of-get_elem? :
    (f : ℕ) (hosts : List Text) → 1 ≤ f → host_of (pos f) hosts ≡ get_elem? hosts (f - 1)
host_of-get_elem? zero hosts h = absurd (omega arith)
host_of-get_elem? (suc i) hosts h = ap (get_elem? hosts) (omega arith)

-- The next host, two further on, counted around.
pub next_id :
    (f n : ℕ)
    → 2 ≤ n
    → 1 ≤ f
    → f ≤ n
    → ((f + 1 < n) × ((f + 1) % n + 1 ≡ f + 2)) ⊎ ((n ≤ f + 1) × ((f + 1) % n + 1 + n ≡ f + 2))
next_id f n two lo hi = elim (Bool-cases (ltb (f + 1) n)) [
  | inl lt ↦
      let e = mod-eq_of_lt {n = f + 1} {m = n} (ground arith) in
      inl (ground arith, rw e (omega arith))
  | inr ge ↦
      let le : n ≤ f + 1 = ground arith in
      let e =
        mod-eq-sub-mod {n = f + 1} {m = n} le
        ∙ mod-eq_of_lt {n = f + 1 - n} {m = n} (omega arith) in
      inr (le, rw e (omega arith))
]

pub next_in_range :
    (f n : ℕ) → 2 ≤ n → 1 ≤ f → f ≤ n → (1 ≤ (f + 1) % n + 1) × ((f + 1) % n + 1 ≤ n)
next_in_range f n two lo hi = elim (next_id f n two lo hi) [
  | inl (lt, e) ↦ (omega arith, omega arith)
  | inr (ge, e) ↦ (omega arith, omega arith)
]

module _ (up : Text → Bool) where
  abbrev pub after_reset : FsClient → Text → FsClient
  after_reset c host = record c { follower_sock = some (record { host = host; opened = up host }) }

  pub reset_follower-in_range :
      (c : FsClient)
      → 1 ≤ c.follower_id
      → c.follower_id ≤ length c.hosts
      → (h : Text) × (get_elem? c.hosts (c.follower_id - 1) ≡ some h)
        × (reset_follower up c ≡ some (after_reset c h))
  unfolding reset_follower
  reset_follower-in_range c lo hi =
      let (h, e) = in_range (c.follower_id - 1) c.hosts (omega arith) in
      (h, e, rw (host_of-get_elem? c.follower_id c.hosts lo, e))

  pub missed_round :
      (r : ℕ) (c : FsClient) (h : Text)
      → reset_follower up c ≡ some (after_reset c h)
      → up h ≡ false
      → try_followers up (suc r) c ≡ try_followers up r (next_follower (after_reset c h))
  unfolding try_followers
  missed_round r c h reset shut = rw (reset, shut)
