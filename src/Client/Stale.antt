-- ===== src/Client/Stale.antt =====
-- What the client makes of the leader that servers name.
use raftfs.Prelude.{
  ℕ, suc, ◌≡◌, ◌≢◌, Bool, true, false, Option, none, some, arith, get_elem?, ◌==◌, pos, minus_one,
  is_minus_one,
}
use raftfs.Protocol.{Text, ok, not_leader}
use raftfs.Raft.{Consensus}
use raftfs.Service.{LeaderResponse, ChangeResponse, get_leader}
use raftfs.Client.{
  Sock, FsClient, find_leader, ask_leader, connect_follower, reset_leader, change_call, create_call,
  delete_call,
}

-- A client that knows no leader asks its follower, with a response whose status is ok before the
-- handler runs: if the follower names a host other than itself, the client turns to that host.
pub find_leader-get_leader :
    (up : Text → Bool) (s : Consensus) (fresh : LeaderResponse) (c : FsClient) (sock : Sock) (i : ℕ)
    (h : Text)
    → fresh.status ≡ ok
    → c.leader_id ≡ minus_one
    → c.follower_sock ≡ some sock
    → sock.opened ≡ true
    → s.leader_id ≡ pos (suc i)
    → suc i ≢ c.follower_id
    → get_elem? c.hosts i ≡ some h
    → find_leader up (λ to. some (get_leader s fresh)) c
      ≡ some (
        record c {
          leader_id = pos (suc i);
          leader_sock = some (record { host = h; opened = up h });
        },
        pos (suc i),
      )
unfolding find_leader ask_leader connect_follower reset_leader get_leader
find_leader-get_leader up s fresh c sock i h good unknown asked opened named other at_i =
    let e : (suc i == c.follower_id) ≡ false = ground arith in
    rw (unknown, asked, opened, good, named, at_i, e)

-- If the follower that is asked knows no leader either, its response names the host of id -1, and the
-- client's lookup of that host is undefined.
pub find_leader-no_leader :
    (up : Text → Bool) (s : Consensus) (fresh : LeaderResponse) (c : FsClient) (sock : Sock)
    → fresh.status ≡ ok
    → c.leader_id ≡ minus_one
    → c.follower_sock ≡ some sock
    → sock.opened ≡ true
    → s.leader_id ≡ minus_one
    → find_leader up (λ to. some (get_leader s fresh)) c ≡ none
unfolding find_leader ask_leader connect_follower reset_leader get_leader
find_leader-no_leader up s fresh c sock good unknown asked opened nobody =
    rw (unknown, asked, opened, good, nobody)

-- A client that knows a leader and has a socket to it: an answer that the host is not the leader leaves
-- the client as it was, whatever leader the answer names, in `Mkdir` and `Rmdir`, `CreateFile` and
-- `DeleteFile`, so that it sends its next change to the same host.
pub change_call-not_leader :
    (up : Text → Bool) (ask : Sock → Option LeaderResponse) (send : Sock → Option ChangeResponse)
    (c : FsClient) (sock : Sock) (response : ChangeResponse)
    → is_minus_one c.leader_id ≡ false
    → c.leader_sock ≡ some sock
    → send sock ≡ some response
    → response.status ≡ not_leader
    → (change_call up ask send c ≡ some (c, not_leader))
      × (create_call up ask send c ≡ some (c, not_leader))
      × (delete_call up ask send c ≡ some (c, not_leader))
unfolding change_call create_call delete_call find_leader
change_call-not_leader up ask send c sock response known leads answered stale = (
  simp (known, leads, answered, stale),
  simp (known, leads, answered, stale),
  simp (known, leads, answered, stale),
)
