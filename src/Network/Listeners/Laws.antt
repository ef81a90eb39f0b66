-- ===== src/Network/Listeners/Laws.antt =====
-- What the listening sockets of src/network.rs hear, and when their loops return.
use failover.Base.{
  ℕ, Bool, true, false, ◌==◌, if◌then◌else◌, ◌≡◌, ◌≢◌, ◌↔◌, refl, sym, ap, ◌∙◌, List, [], ◌∷◌, ◌++◌,
  Option, none, some, All, arith, take, Option-cases, inl, inr,
}
use failover.Error.{Result, ok, Source}
use failover.Network.Listeners.{
  Turn, would_block, datagram, wait, packet_outgoing, arp_turn, recv_arp, buffer_len,
}

module _ {ℓ κ} {T : Type ℓ} {A : Type κ} (body : T → Option (Result Source A)) where
  -- The loop passes over the turns on which its body continues, and returns on the first other.
  pub wait_skips :
      (skipped rest : List T)
      → All (λ t. body t ≡ none) skipped
      → wait body (skipped ++ rest) ≡ wait body rest
  unfolding wait
  wait_skips [] rest idle = refl
  wait_skips (t ∷ skipped) rest idle = rw idle.0 (wait_skips skipped rest idle.1)

  wait_now :
      (rest : List T) (t : T) (result : Result Source A)
      → body t ≡ some result
      → wait body (t ∷ rest) ≡ some (result, rest)
  unfolding wait
  wait_now rest t result h = rw (wait, h) refl

  pub wait_returns :
      (skipped rest : List T) (t : T) (result : Result Source A)
      → All (λ t. body t ≡ none) skipped
      → body t ≡ some result
      → wait body (skipped ++ t ∷ rest) ≡ some (result, rest)
  wait_returns skipped rest t result idle h =
      wait_skips skipped (t ∷ rest) idle ∙ wait_now rest t result h

  -- It returns as soon as there is a turn on which its body does.
  pub wait_ends :
      (before rest : List T) (t : T) → body t ≢ none → wait body (before ++ t ∷ rest) ≢ none
  unfolding wait
  wait_ends [] rest t ends = ground arith
  wait_ends (x ∷ before) rest t ends = ground (arith, wait_ends before rest t ends)

  -- What the turns of a loop that returned were.
  pub record Returned (turns : List T) (result : Result Source A) (rest : List T)
      : Type (ℓ ⊔ κ) where
    pub skipped : List T
    pub last : T
    pub split : turns ≡ skipped ++ last ∷ rest
    pub idle : All (λ t. body t ≡ none) skipped
    pub returning : body last ≡ some result

  pub wait-Returned :
      (turns rest : List T) (result : Result Source A)
      → wait body turns ≡ some (result, rest)
      → Returned turns result rest
  unfolding wait
  wait-Returned [] rest result h = cc
  wait-Returned (t ∷ turns) rest result h = elim (Option-cases (body t)) [
    | inl idle ↦
        let r = wait-Returned turns rest result (ground arith) in
        record {
          skipped = t ∷ r.skipped;
          last = r.last;
          split = ap (◌∷◌ t) r.split;
          idle = (idle, r.idle);
          returning = r.returning;
        }
    | inr (x, done) ↦ record {
      skipped = [];
      last = t;
      split = ground arith;
      idle = tt;
      returning = ground arith;
    }
  ]

-- A turn on which the socket gives no frame of another host: nothing to read, or a copy of a frame
-- that this host sent.
abbrev pub IsPassedOver : Turn ℕ → Type 0
IsPassedOver would_block = Unit
IsPassedOver (datagram bytes pkttype) = pkttype ≡ packet_outgoing
IsPassedOver _ = ⊥

arp_turn-IsPassedOver : (t : Turn ℕ) → (arp_turn t ≡ none) ↔ IsPassedOver t
unfolding arp_turn
arp_turn-IsPassedOver (Turn.not_readable source) = ground arith
arp_turn-IsPassedOver would_block = ground arith
arp_turn-IsPassedOver (Turn.failed source) = ground arith
arp_turn-IsPassedOver (datagram bytes pkttype) = ground arith

All-map {ℓ κ ν} :
    {A : Type ℓ} {P : A → Type κ} {Q : A → Type ν} (xs : List A)
    → ((x : A) → P x → Q x)
    → All P xs
    → All Q xs
All-map [] f h = tt
All-map (x ∷ xs) f h = (f x h.0, All-map xs f h.1)

-- The listener has got a frame of another host, after turns that it passed over.
pub record Heard (turns : List (Turn ℕ)) (bytes : List ℕ) (rest : List (Turn ℕ)) : Type 0 where
  pub skipped : List (Turn ℕ)
  pub frame : List ℕ
  pub pkttype : ℕ
  pub split : turns ≡ skipped ++ datagram frame pkttype ∷ rest
  pub passed_over : All IsPassedOver skipped
  pub foreign : pkttype ≢ packet_outgoing
  pub cut : bytes ≡ take buffer_len frame

if-some {ℓ} :
    {A : Type ℓ} (b : Bool) (x y : A)
    → (if b then none else some x) ≡ some y
    → (b ≡ false) × (x ≡ y)
if-some true x y h = cc
if-some false x y h = (refl, cc)

-- The turn that gives bytes is a frame of another host.
arp_turn-Frame :
    (t : Turn ℕ) (bytes : List ℕ)
    → arp_turn t ≡ some (ok bytes)
    → (frame : List ℕ) × (pkttype : ℕ) × (t ≡ datagram frame pkttype)
      × (pkttype ≢ packet_outgoing)
      × (bytes ≡ take buffer_len frame)
unfolding arp_turn
arp_turn-Frame (Turn.not_readable source) bytes h = cc
arp_turn-Frame would_block bytes h = cc
arp_turn-Frame (Turn.failed source) bytes h = cc
arp_turn-Frame (datagram frame pkttype) bytes h =
    let (other, same) = if-some (pkttype == packet_outgoing) _ (ok bytes) h in
    (frame, pkttype, refl, λ e. absurd (ground (arith, e, other)), cc)

arp_turn-foreign :
    (frame : List ℕ) (pkttype : ℕ)
    → pkttype ≢ packet_outgoing
    → arp_turn (datagram frame pkttype) ≡ some (ok (take buffer_len frame))
unfolding arp_turn
arp_turn-foreign frame pkttype foreign = ground arith

recv_arp-Heard :
    (turns rest : List (Turn ℕ)) (bytes : List ℕ)
    → recv_arp turns ≡ some (ok bytes, rest)
    → Heard turns bytes rest
unfolding recv_arp
recv_arp-Heard turns rest bytes h =
    let r = wait-Returned arp_turn turns rest (ok bytes) h in
    let (frame, pkttype, same, foreign, cut) = arp_turn-Frame r.last bytes r.returning in
    record {
      skipped = r.skipped;
      frame = frame;
      pkttype = pkttype;
      split = r.split ∙ ap (λ t. r.skipped ++ t ∷ rest) same;
      passed_over = All-map r.skipped (λ t. (arp_turn-IsPassedOver t).0) r.idle;
      foreign = foreign;
      cut = cut;
    }

-- The ARP listener returns bytes exactly if, after turns on which there was nothing to read or
-- only a copy of a frame that this host sent, there came a frame of another host: it returns the
-- first such frame, of which it has the first 128 bytes, and it leaves what comes after.
pub recv_arp_iff :
    (turns rest : List (Turn ℕ)) (bytes : List ℕ)
    → (recv_arp turns ≡ some (ok bytes, rest)) ↔ Heard turns bytes rest
unfolding recv_arp
recv_arp_iff turns rest bytes = (
  recv_arp-Heard turns rest bytes,
  λ r.
      ap (wait arp_turn) r.split
      ∙ wait_returns arp_turn r.skipped rest (datagram r.frame r.pkttype) _
          (All-map r.skipped (λ t. (arp_turn-IsPassedOver t).1) r.passed_over)
          (arp_turn-foreign r.frame r.pkttype r.foreign)
      ∙ ap (λ (b : List ℕ). some (ok b, rest)) (sym r.cut),
)

-- The loop ends: whatever comes before, once there is a turn that the ARP listener does not pass
-- over, it returns a frame or an error.
pub recv_arp_ends :
    (before rest : List (Turn ℕ)) (t : Turn ℕ)
    → ¬ IsPassedOver t
    → recv_arp (before ++ t ∷ rest) ≢ none
unfolding recv_arp
recv_arp_ends before rest t foreign =
    wait_ends arp_turn before rest t (λ h. foreign ((arp_turn-IsPassedOver t).0 h))
