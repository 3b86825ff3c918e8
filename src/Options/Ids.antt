-- ===== src/Options/Ids.antt =====
-- The ids that servers give the hosts, and the ids that clients look up.
use mathlib.Core.Option.{some_inj}
use raftfs.Prelude.{
  ℕ, suc, ◌+◌, ◌≡◌, ◌⊎◌, inl, inr, refl, sym, ap, ◌∙◌, Bool, true, false, List, [], ◌∷◌, none, some,
  arith, text_eq, text_eq_iff, update, get_elem?, pos, Bool-cases, ◌==◌, ==_iff,
}
use raftfs.Protocol.{Text}
use raftfs.Client.{host_of}
use raftfs.Options.{Options, number_hosts, get_hosts, get_all_hosts}

-- The hosts that have an id, and the own id if it is found, are the client's hosts of those ids.
record Named (words : List Text) (found : Bool) (o : Options) : Type 0 where
  others : (id : ℕ) (h : Text) → o.hosts id ≡ some h → host_of (pos id) words ≡ some h
  own : found ≡ true → (id : ℕ) → o.self_id ≡ some id → host_of (pos id) words ≡ some o.self_name

host_at : (id k : ℕ) (words : List Text) → id ≡ suc k → host_of (pos id) words ≡ get_elem? words k
host_at id k words e = rw e

number_hosts-Named :
    (words rest : List Text) (k id : ℕ) (found : Bool) (o : Options)
    → id ≡ suc k
    → ((j : ℕ) → get_elem? words (k + j) ≡ get_elem? rest j)
    → Named words found o
    → let (o', found') = number_hosts rest id found o in
      Named words found' o' × (o'.self_name ≡ o.self_name)
unfolding number_hosts
number_hosts-Named words [] k id found o at_id here named = (named, refl)
number_hosts-Named words (h ∷ rest) k id found o at_id here named =
    let e : k + 0 ≡ k = omega arith in
    let there : host_of (pos id) words ≡ some h =
      host_at id k words at_id ∙ ap (get_elem? words) (sym e) ∙ here 0 in
    let next : (j : ℕ) → get_elem? words (k + 1 + j) ≡ get_elem? rest j =
      λ j. ap (get_elem? words) (omega arith) ∙ here (suc j) in
    elim (Bool-cases (text_eq h o.self_name)) [
      | inl own ↦
          let same : h ≡ o.self_name = (text_eq_iff h o.self_name).0 own in
          let named' : Named words true (record o { self_id = some id }) = record {
            others = named.others;
            own = λ t id' e'.
                ap (λ (i : ℕ). host_of (pos i) words) (sym (some_inj.0 e')) ∙ there ∙ ap some same;
          } in
          rw own (
            number_hosts-Named words rest (k + 1) (id + 1) true (record o { self_id = some id })
              (omega arith) next named')
      | inr other ↦
          let o1 : Options = record o { hosts = update o.hosts id (some h) } in
          let named' : Named words found o1 = record {
            others = λ id' h' e'. elim (Bool-cases (id == id')) [
              | inl here' ↦
                  ap (λ (i : ℕ). host_of (pos i) words) (sym ((==_iff id id').0 here'))
                  ∙ there
                  ∙ rw here' at e'
              | inr elsewhere ↦ named.others id' h' (rw elsewhere at e')
            ];
            own = named.own;
          } in
          rw other
            (number_hosts-Named words rest (k + 1) (id + 1) found o1 (omega arith) next named')
    ]

-- A server whose options have no hosts yet reads the hosts file, finds its own name there, and does
-- not exit. For each host, itself included, the id that the server then has for it is the one by which
-- a client that has read the same file looks up that host.
pub get_hosts-get_all_hosts :
    (words : List Text) (o o' c : Options) (id : ℕ) (h : Text)
    → ((k : ℕ) → o.hosts k ≡ none)
    → c.all_hosts ≡ []
    → get_hosts words o ≡ some o'
    → (o'.hosts id ≡ some h) ⊎ ((o'.self_id ≡ some id) × (h ≡ o.self_name))
    → host_of (pos id) (get_all_hosts words c).all_hosts ≡ some h
unfolding get_hosts get_all_hosts
get_hosts-get_all_hosts words o o' c id h fresh unread read known =
    let start : Named words false o = record {
      others = λ k g e. ground (arith, fresh k, e);
      own = λ e. cc;
    } in
    let (named, name) =
      number_hosts-Named words words 0 1 false o refl (λ j. ap (get_elem? words) (omega arith))
        start in
    elim (Bool-cases (number_hosts words 1 false o).1) [
      | inr lost ↦ absurd (ground (arith, lost, read))
      | inl found ↦
          let same : (number_hosts words 1 false o).0 ≡ o' = some_inj.0 (rw found at read) in
          rw unread (elim known [
            | inl e ↦ named.others id h (ap (λ (x : Options). x.hosts id) same ∙ e)
            | inr (e, n) ↦
                named.own found id (ap (λ (x : Options). x.self_id) same ∙ e)
                ∙ ap some (name ∙ sym n)
          ])
    ]
