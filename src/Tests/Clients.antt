-- ===== src/Tests/Clients.antt =====
-- A client of two hosts, and of three.
use mathlib.Core.Option.{some_inj}
use raftfs.Prelude.{
  List, update, inl, zero, suc, ◌≡◌, refl, arith, [], ◌∷◌, none, some, true, false, Bool, codes,
  text_eq, pos, minus_one,
}
use raftfs.Protocol.{Text, ok, not_leader}
use raftfs.Raft.{Consensus, follower}
use raftfs.Service.{LeaderResponse, ChangeResponse}
use raftfs.Client.{host_of, Sock, FsClient, connect_follower}
use raftfs.Client.Connecting.{connect_follower-odd}
use raftfs.Client.Parity.{connect_follower-even, AllDown}
use raftfs.Options.{Options, number_hosts, get_hosts, get_all_hosts}
use raftfs.Options.Ids.{get_hosts-get_all_hosts}
use raftfs.Tests.Data.{log_with, server}

abbrev only_b : Text → Bool
only_b host = text_eq host (codes "b")

abbrev of_three : FsClient
of_three = record {
  hosts = codes "a" ∷ codes "b" ∷ codes "c" ∷ [];
  leader_id = minus_one;
  follower_id = 1;
  leader_sock = none;
  follower_sock = none;
}

abbrev of_two : FsClient
of_two = record of_three { hosts = codes "a" ∷ codes "b" ∷ [] }

up_b : only_b (codes "b") ≡ true
unfolding text_eq
up_b = refl

connect_follower-odd_example :
    (c' : FsClient) × (connect_follower only_b of_three ≡ some (c', true))
connect_follower-odd_example =
    connect_follower-odd only_b of_three 0 1 (codes "b") refl (omega arith) (omega arith) refl up_b

others_down : AllDown only_b of_two
unfolding text_eq
others_down zero h e odd = let s : codes "a" ≡ h = some_inj.0 e in rw⁻¹ s
others_down (suc zero) h e odd = absurd (omega arith)
others_down (suc (suc i)) h e odd = cc

connect_follower-even_example :
    (c' : FsClient) × (connect_follower only_b of_two ≡ some (c', false))
connect_follower-even_example =
    connect_follower-even only_b of_two 0 refl (omega arith) (omega arith) refl others_down

abbrev to_a : Sock
to_a = record { host = codes "a"; opened = true }

abbrev connected : FsClient
connected = record of_three { follower_sock = some to_a }

abbrev fresh : LeaderResponse
fresh = record { status = ok; leader_id = pos 0 }

abbrev knows : Consensus
knows = record (server follower (log_with [] 0)) { leader_id = pos 2 }

abbrev led : FsClient
led = record connected { leader_id = pos 1; leader_sock = some to_a }

abbrev stale : ChangeResponse
stale = record { status = not_leader; leader_id = some (pos 2) }

abbrev words : List Text
words = codes "a" ∷ codes "b" ∷ codes "c" ∷ []

abbrev options : Options
options = record { self_name = codes "b"; self_id = none; hosts = λ k. none; all_hosts = [] }

abbrev numbered : Options
numbered = record options {
  self_id = some 2;
  hosts = update (update (λ k. none) 1 (some (codes "a"))) 3 (some (codes "c"));
}

reads : get_hosts words options ≡ some numbered
unfolding get_hosts number_hosts text_eq
reads = refl

get_hosts-get_all_hosts_example :
    host_of (pos 3) (get_all_hosts words options).all_hosts ≡ some (codes "c")
get_hosts-get_all_hosts_example =
    get_hosts-get_all_hosts words options numbered options 3 (codes "c") (λ k. refl) refl reads
      (inl refl)
