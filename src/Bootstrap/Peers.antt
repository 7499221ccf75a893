-- ===== src/Bootstrap/Peers.antt =====
-- Which peers `RegisterPeer` answers with.
use mathlib.Core.List.{Memᴰ, Permᴰ}
use mathlib.Core.List.Memᴰ
use mathlib.Core.List.Permᴰ
use file_sharing_system_with.Prelude.{
  ℕ, ◌≤◌, ◌<◌, ◌≡◌, ◌≢◌, refl, inl, inr, Bool, false, some, List, [], ◌∷◌, nat_eq, nat_beq_iff,
  arith, length, take, ltb, ◌==◌, if◌then◌else◌, ap, sym, subst, ◌∙◌, Bool-cases, Permᴰ-Memᴰ,
  take-Memᴰ, length-take,
}
use file_sharing_system_with.Word.{Int32}
use file_sharing_system_with.GoMap.Range.{Range, IsRanging}
use file_sharing_system_with.GoMap.Unique.{lookup→mem, mem→lookup}
use file_sharing_system_with.Bootstrap.{PeerInfo, candidates, get_random_peers, register_peer}
use file_sharing_system_with.Bootstrap.Registry.{
  Registration, registry, latest_info, lookup-registry, registry-IsUnique, latest_info-id,
}

pub candidates_sound :
    (x : Int32) (p : PeerInfo) (entries : List (Int32 × PeerInfo))
    → Memᴰ p (candidates x entries)
    → (k : Int32) × (k ≢ x) × Memᴰ (k, p) entries
unfolding candidates
candidates_sound x p [] h = absurd (Memᴰ.not-nil h)
candidates_sound x p ((id, q) ∷ entries) h = elim (Bool-cases (id == x)) [
  | inl own ↦
      let (k, other, m) = candidates_sound x p entries (
        subst (λ b. Memᴰ p (if b then candidates x entries else q ∷ candidates x entries)) own h) in
      (k, other, Memᴰ.tail m)
  | inr differs ↦
      elim (Memᴰ.cases_cons (
        subst (λ b. Memᴰ p (if b then candidates x entries else q ∷ candidates x entries)) differs
          h)) [
            | inl here ↦
                (id, (λ e. ground (arith, nat_beq_iff id x)), Memᴰ.head (ap (λ y. (id, y)) here))
            | inr later ↦
                let (k, other, m) = candidates_sound x p entries later in (k, other, Memᴰ.tail m)
          ]
]

candidates_complete :
    (x k : Int32) (p : PeerInfo) (entries : List (Int32 × PeerInfo))
    → k ≢ x
    → Memᴰ (k, p) entries
    → Memᴰ p (candidates x entries)
unfolding candidates
candidates_complete x k p [] other h = absurd (Memᴰ.not-nil h)
candidates_complete x k p ((id, q) ∷ entries) other h =
    let goal : Bool → Type 0 =
      λ b. Memᴰ p (if b then candidates x entries else q ∷ candidates x entries) in
    elim (Memᴰ.cases_cons h) [
      | inl here ↦
          let same : k ≡ id = ap (λ (e : Int32 × PeerInfo). e.0) here in
          let differs : (id == x) ≡ false = ground (arith, nat_beq_iff id x) in
          subst goal (sym differs) (Memᴰ.head (ap (λ (e : Int32 × PeerInfo). e.1) here))
      | inr later ↦
          let rest = candidates_complete x k p entries other later in
          elim (Bool-cases (id == x)) [
            | inl own ↦ subst goal (sym own) rest
            | inr differs ↦ subst goal (sym differs) (Memᴰ.tail rest)
          ]
    ]

-- A list capped at a length: only what is as long as the limit has lost something.
abbrev IsCapped : ℕ → List PeerInfo → List PeerInfo → Type 0
IsCapped n xs ys =
    (length ys ≤ n) × ((p : PeerInfo) → Memᴰ p ys → Memᴰ p xs) × (length ys < n → ys ≡ xs)

take-IsCapped :
    (n : ℕ) (xs : List PeerInfo) → IsCapped n xs (if ltb n (length xs) then take n xs else xs)
take-IsCapped n xs = elim (Bool-cases (ltb n (length xs))) [
  | inl longer ↦
      subst (λ b. IsCapped n xs (if b then take n xs else xs)) (sym longer)
        (
          omega (arith, length-take n xs),
          λ p h. take-Memᴰ n xs h,
          λ short. absurd (ground (arith, length-take n xs)),
        )
  | inr fits ↦
      subst (λ b. IsCapped n xs (if b then take n xs else xs)) (sym fits)
        (ground arith, λ p h. h, λ short. refl)
]

registered :
    (r : Registration) (history : List Registration) (k : Int32) (p : PeerInfo)
    → k ≢ r.id
    → Memᴰ (k, p) (registry (r ∷ history)).peers
    → (p.peer_id ≢ r.id) × (latest_info p.peer_id history ≡ some p)
unfolding latest_info
registered r history k p other entry =
    let found =
      mem→lookup k p (registry (r ∷ history)).peers (registry-IsUnique (r ∷ history)) entry in
    let latest = sym (lookup-registry k (r ∷ history)) ∙ found in
    let before : latest_info k history ≡ some p = ground (arith, nat_beq_iff r.id k) in
    let id = latest_info-id k p history before in
    (λ e. other (sym id ∙ e), subst (λ x. latest_info x history ≡ some p) (sym id) before)

registered_other :
    (r : Registration) (history : List Registration) (p : PeerInfo)
    → p.peer_id ≢ r.id
    → latest_info p.peer_id history ≡ some p
    → Memᴰ (p.peer_id, p) (registry (r ∷ history)).peers
unfolding latest_info
registered_other r history p other latest =
    let now : latest_info p.peer_id (r ∷ history) ≡ some p =
      ground (arith, nat_beq_iff r.id p.peer_id) in
    lookup→mem p.peer_id p (registry (r ∷ history)).peers
      (lookup-registry p.peer_id (r ∷ history) ∙ now)

module _ (order : Range Int32 PeerInfo) (fair : IsRanging order) where
  -- In whatever order the registry is visited and however the candidates are shuffled, `RegisterPeer`
  -- stores the registration and answers with at most three peers, each with its latest registration
  -- and none of them the requester; if they are fewer than three, they are all other peers.
  pub register_peer-exact :
      (shuffle : List PeerInfo → List PeerInfo)
      → ((ps : List PeerInfo) → Permᴰ (shuffle ps) ps)
      → (r : Registration) (history : List Registration)
      → let (response, s) = register_peer order shuffle r.time r.id r.address (registry history) in
        (s ≡ registry (r ∷ history))
        × (length response.peers ≤ 3)
        × ((p : PeerInfo)
            → Memᴰ p response.peers
            → (p.peer_id ≢ r.id) × (latest_info p.peer_id history ≡ some p))
        × (length response.peers < 3
            → (p : PeerInfo) → p.peer_id ≢ r.id
            → latest_info p.peer_id history ≡ some p
            → Memᴰ p response.peers)
  unfolding register_peer get_random_peers registry
  register_peer-exact shuffle shuffled r history =
      let m = (registry (r ∷ history)).peers in
      let others = candidates r.id (order m) in
      let (short, kept, whole) = take-IsCapped 3 (shuffle others) in
      (
        refl,
        short,
        λ p h.
            let (k, other, entry) =
              candidates_sound r.id p (order m) (Permᴰ-Memᴰ p (shuffled others) (kept p h)) in
            registered r history k p other (Permᴰ-Memᴰ (k, p) (fair m) entry),
        λ few p other latest.
            let entry =
              Permᴰ-Memᴰ (p.peer_id, p) (Permᴰ.symm (fair m))
                (registered_other r history p other latest) in
            subst (Memᴰ p) (sym (whole few)) (
              Permᴰ-Memᴰ p (Permᴰ.symm (shuffled others))
                (candidates_complete r.id p.peer_id p (order m) other entry)),
      )
