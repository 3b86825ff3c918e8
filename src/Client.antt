-- ===== src/Client.antt =====
-- client/RaftFS.h and client/RaftFS.cpp: the client of the servers.
-- `up` tells which hosts accept a connection, and each remote call is a parameter that gives the
-- response that comes back, or none for a transport exception. An outer `none` is undefined
-- behaviour, or an exception that leaves the method.
pub mod Hosts
pub mod Connecting
pub mod Parity
pub mod Stale
use raftfs.Prelude.{
  ℕ, zero, suc, ◌+◌, ◌-◌, ◌%◌, Bool, true, false, not, List, [], ◌∷◌, Option, none, some,
  if◌then◌else◌, ◌==◌, ◌>>=◌, length, get_elem?, ℤ, pos, negsuc, is_minus_one, minus_one,
}
use raftfs.Protocol.{Text, Status, ok, no_leader, comm_error, not_found}
use raftfs.Service.{LeaderResponse, ChangeResponse, FileInfoResponse, ListDirResponse}
use raftfs.Inode.{FileInfo}

-- A socket, once there is one: its host, and whether it is open.
pub record Sock : Type 0 where
  pub host : Text
  pub opened : Bool

pub record FsClient : Type 0 where
  pub hosts : List Text
  pub leader_id : ℤ
  pub follower_id : ℕ
  pub leader_sock : Option Sock
  pub follower_sock : Option Sock

abbrev pub is_open : Option Sock → Bool
is_open none = false
is_open (some s) = s.opened

-- `hosts[id - 1]`, out of bounds undefined.
abbrev pub host_of : ℤ → List Text → Option Text
host_of (pos zero) hosts = none
host_of (pos (suc i)) hosts = get_elem? hosts i
host_of (negsuc i) hosts = none

abbrev pub same_id : ℤ → ℤ → Bool
same_id (pos a) (pos b) = a == b
same_id (negsuc a) (negsuc b) = a == b
same_id _ _ = false

-- `(follower_id + 1) % hosts.size() + 1`
abbrev pub next_follower : FsClient → FsClient
next_follower c = record c { follower_id = (c.follower_id + 1) % length c.hosts + 1 }

-- The call on the leader's socket, which is undefined if there is none.
abbrev pub send_change : (Sock → Option ChangeResponse) → FsClient → Option Status
send_change send c = do
  sock ← c.leader_sock
  some (elim (send sock) [ none ↦ comm_error | some response ↦ response.status ])

abbrev pub listed : Option (List Text) → List Text
listed none = []
listed (some names) = names

module _ (up : Text → Bool) where
  -- `ResetRPCClient` for the follower and for the leader.
  pub reset_follower : FsClient → Option FsClient
  reset_follower c = do
    host ← host_of (pos c.follower_id) c.hosts
    some (record c { follower_sock = some (record { host = host; opened = up host }) })

  pub reset_leader : FsClient → Option FsClient
  reset_leader c = do
    host ← host_of c.leader_id c.hosts
    some (record c { leader_sock = some (record { host = host; opened = up host }) })

  abbrev follow_hint : Option ℤ → FsClient → Option FsClient
  follow_hint none c = some c
  follow_hint (some hint) c =
      if same_id hint c.leader_id then some c else reset_leader (record c { leader_id = hint })

  -- The loop of `ConnectFollower`, with the retries that are left.
  pub try_followers : ℕ → FsClient → Option FsClient
  try_followers zero c = reset_follower c
  try_followers (suc retries) c = do
    c' ← reset_follower c
    let rest = try_followers retries (next_follower c')
    if is_open c'.follower_sock then some c' else rest

  pub connect_follower : FsClient → Option (FsClient × Bool)
  connect_follower c = do
    c' ← (if is_open c.follower_sock then some c else try_followers (length c.hosts) c)
    some (c', is_open c'.follower_sock)

  -- `GetLeader`; no handler catches an exception of its call.
  pub ask_leader : (Sock → Option LeaderResponse) → FsClient → Option FsClient
  ask_leader ask c = do
    sock ← c.follower_sock
    response ← ask sock
    elim response.status [
      | ok ↦ (do
        c1 ← reset_leader (record c { leader_id = response.leader_id })
        elim response.leader_id [
          | pos i ↦ if i == c1.follower_id then reset_follower (next_follower c1) else some c1
          | negsuc i ↦ some c1
        ])
      | _ ↦ some c
    ]

  pub find_leader : (Sock → Option LeaderResponse) → FsClient → Option (FsClient × ℤ)
  find_leader ask c =
      if is_minus_one c.leader_id
      then (do
        (c1, connected) ← connect_follower c
        c2 ← (if connected then ask_leader ask c1 else some c1)
        some (c2, c2.leader_id))
      else some (c, c.leader_id)

  -- The constructor, with the number that `rand` gives; it reads the name of the leader to print it.
  abbrev start_client : (Sock → Option LeaderResponse) → List Text → ℕ → Option FsClient
  start_client ask hosts draw = do
    c ← reset_follower (record {
      hosts = hosts;
      leader_id = minus_one;
      follower_id = draw % length hosts + 1;
      leader_sock = none;
      follower_sock = none;
    })
    (c1, leader_id) ← find_leader ask c
    if is_minus_one leader_id then some c1 else (do host ← host_of leader_id hosts; some c1)

  -- `CheckLeaders`, over the hosts that are left.
  abbrev check_leaders : (Sock → Option LeaderResponse) → List Text → FsClient → Option FsClient
  check_leaders ask [] c = some c
  check_leaders ask (h ∷ hs) c = do
    (c1, leader_id) ← find_leader ask (record c {
      follower_sock = some (record { host = h; opened = up h });
      leader_id = minus_one;
    })
    check_leaders ask hs c1

  -- `Mkdir` and `Rmdir`: the call goes to the leader's socket.
  pub change_call :
      (Sock → Option LeaderResponse)
      → (Sock → Option ChangeResponse)
      → FsClient
      → Option (FsClient × Status)
  change_call ask send c = do
    (c1, leader_id) ← find_leader ask c
    if is_minus_one leader_id then some (c1, no_leader) else (do
      c2 ← elim c1.leader_sock [ none ↦ reset_leader c1 | some s ↦ some c1 ]
      status ← send_change send c2
      some (c2, status))

  -- `CreateFile` uses the leader's socket without looking whether there is one.
  pub create_call :
      (Sock → Option LeaderResponse)
      → (Sock → Option ChangeResponse)
      → FsClient
      → Option (FsClient × Status)
  create_call ask send c = do
    (c1, leader_id) ← find_leader ask c
    if is_minus_one leader_id
        then some (c1, no_leader)
        else (do status ← send_change send c1; some (c1, status))

  -- `DeleteFile` turns to another leader if a response by ok names one.
  pub delete_call :
      (Sock → Option LeaderResponse)
      → (Sock → Option ChangeResponse)
      → FsClient
      → Option (FsClient × Status)
  delete_call ask send c = do
    (c1, leader_id) ← find_leader ask c
    if is_minus_one leader_id then some (c1, no_leader) else (do
      sock ← c1.leader_sock
      elim (send sock) [
        | none ↦ some (c1, comm_error)
        | some response ↦ (do
          c2 ← elim response.status [ ok ↦ follow_hint response.leader_id c1 | _ ↦ some c1 ]
          some (c2, response.status))
      ])

  -- `ListDir`, with the list that it leaves to the caller.
  abbrev list_dir_call :
      (Sock → Option ListDirResponse)
      → List Text
      → FsClient
      → Option (FsClient × Status × List Text)
  list_dir_call send dir_list c = do
    (c1, connected) ← connect_follower c
    if not connected then some (c1, comm_error, dir_list) else (do
      sock ← c1.follower_sock
      first ← some (send sock)
      second ← elim first [
        | none ↦ some none
        | some response ↦ elim response.status [
          | not_found ↦ (do leader ← c1.leader_sock; some (send leader))
          | _ ↦ some (some response)
        ]
      ]
      some (elim second [
        | none ↦ (c1, comm_error, dir_list)
        | some response ↦ (c1, response.status, listed response.dir_list)
      ]))

  -- `GetFileInfo`, with the info that it leaves to the caller.
  abbrev get_file_info_call :
      (Sock → Option FileInfoResponse)
      → Option FileInfo
      → FsClient
      → Option (FsClient × Status × Option FileInfo)
  get_file_info_call send info c = do
    (c1, connected) ← connect_follower c
    if not connected then some (c1, comm_error, info) else (do
      sock ← c1.follower_sock
      some (elim (send sock) [
        | none ↦ (c1, comm_error, info)
        | some response ↦
            (c1, response.status, elim response.status [ ok ↦ response.info | _ ↦ info ])
      ]))
