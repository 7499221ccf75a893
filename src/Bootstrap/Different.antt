-- ===== src/Bootstrap/Different.antt =====
-- `RegisterPeer` does not answer with a peer twice.
use mathlib.Core.List.{Memᴰ, Permᴰ}
use mathlib.Core.List.Permᴰ
use file_sharing_system_with.Prelude.{
  ◌≡◌, ◌≢◌, refl, inl, inr, Bool, some, List, [], ◌∷◌, nat_eq, arith, length, take, ltb, ◌==◌,
  if◌then◌else◌, sym, subst, ◌∙◌, Bool-cases, Permᴰ-Memᴰ, All-intro, All_of_Memᴰ, Apart,
  Apart-Permᴰ, Apart-take,
}
use file_sharing_system_with.Word.{Int32}
use file_sharing_system_with.GoMap.{GoMap, lookup, has}
use file_sharing_system_with.GoMap.Range.{Range, IsRanging}
use file_sharing_system_with.GoMap.Unique.{IsUnique, mem→lookup}
use file_sharing_system_with.Bootstrap.{PeerInfo, candidates, get_random_peers, register_peer}
use file_sharing_system_with.Bootstrap.Registry.{
  Registration, registry, lookup-registry, registry-IsUnique, latest_info-id,
}
use file_sharing_system_with.Bootstrap.Peers.{candidates_sound}

-- Every registered peer stands under its own identifier.
registry-id :
    (k : Int32) (p : PeerInfo) (history : List Registration)
    → Memᴰ (k, p) (registry history).peers
    → p.peer_id ≡ k
registry-id k p history m = latest_info-id k p history (
    sym (lookup-registry k history)
    ∙ mem→lookup k p (registry history).peers (registry-IsUnique history) m)

IsUnique-Apart : (m : GoMap Int32 PeerInfo) → IsUnique m → Apart (λ e. e.0) m
unfolding has
IsUnique-Apart [] u = tt
IsUnique-Apart ((k, p) ∷ m) u = (
  All-intro (λ (e : Int32 × PeerInfo). e.0 ≢ k) m
      (λ e entry same.
        let found = mem→lookup e.0 e.1 m u.1 entry in
        let none_there = u.0 in
        let there : lookup k m ≡ some e.1 = subst (λ x. lookup x m ≡ some e.1) same found in
        absurd (ground (arith, there, none_there))),
  IsUnique-Apart m u.1,
)

candidates-Apart :
    (x : Int32) (entries : List (Int32 × PeerInfo))
    → Apart (λ e. e.0) entries
    → ((k : Int32) (p : PeerInfo) → Memᴰ (k, p) entries → p.peer_id ≡ k)
    → Apart (λ (p : PeerInfo). p.peer_id) (candidates x entries)
unfolding candidates
candidates-Apart x [] a keyed = tt
candidates-Apart x ((id, q) ∷ entries) a keyed =
    let rest = candidates-Apart x entries a.1 (λ k p m. keyed k p (Memᴰ.tail m)) in
    let goal : Bool → Type 0 = λ b.
      Apart (λ (p : PeerInfo). p.peer_id)
        (if b then candidates x entries else q ∷ candidates x entries) in
    elim (Bool-cases (id == x)) [
      | inl own ↦ subst goal (sym own) rest
      | inr differs ↦ subst goal (sym differs) (
        All-intro (λ (p : PeerInfo). p.peer_id ≢ q.peer_id) (candidates x entries)
            (λ p m same.
              let (k, _, entry) = candidates_sound x p entries m in
              let other = All_of_Memᴰ (λ (e : Int32 × PeerInfo). e.0 ≢ id) entries a.0 entry in
              let at_k = keyed k p (Memᴰ.tail entry) in
              let at_id = keyed id q (Memᴰ.head refl) in absurd (other (sym at_k ∙ same ∙ at_id))),
        rest,
      )
    ]

-- In whatever order and however shuffled, `RegisterPeer` answers with different peers.
pub register_peer-Apart :
    (order : Range Int32 PeerInfo)
    → IsRanging order
    → (shuffle : List PeerInfo → List PeerInfo) → ((ps : List PeerInfo) → Permᴰ (shuffle ps) ps)
    → (r : Registration) (history : List Registration)
    → Apart
        (λ (p : PeerInfo). p.peer_id)
        (register_peer order shuffle r.time r.id r.address (registry history)).0.peers
unfolding register_peer get_random_peers registry
register_peer-Apart order fair shuffle shuffled r history =
    let m = (registry (r ∷ history)).peers in
    let entries =
      Apart-Permᴰ (λ e. e.0) (Permᴰ.symm (fair m))
        (IsUnique-Apart m (registry-IsUnique (r ∷ history))) in
    let others = candidates r.id (order m) in
    let apart =
      candidates-Apart r.id (order m) entries
        (λ k p entry. registry-id k p (r ∷ history) (Permᴰ-Memᴰ (k, p) (fair m) entry)) in
    let mixed = Apart-Permᴰ (λ (p : PeerInfo). p.peer_id) (Permᴰ.symm (shuffled others)) apart in
    elim (Bool-cases (ltb 3 (length (shuffle others)))) [
      | inl longer ↦
          subst
            (λ b.
              Apart (λ (p : PeerInfo). p.peer_id)
                (if b then take 3 (shuffle others) else shuffle others))
            (sym longer) (Apart-take (λ (p : PeerInfo). p.peer_id) 3 (shuffle others) mixed)
      | inr fits ↦
          subst
            (λ b.
              Apart (λ (p : PeerInfo). p.peer_id)
                (if b then take 3 (shuffle others) else shuffle others))
            (sym fits) mixed
    ]
