-- ===== src/Handlers/Unordered.antt =====
-- The order in which an advertisement lists its addresses (src/pkt/handlers.rs).
use mathlib.Core.List.{Perm, Permᴰ}
use mathlib.Core.Logic.{∥∥₁_elim}
use mathlib.Core.Bool.{Bool-set}
use mathlib.Core.Quot
use mathlib.Core.Quot.{Quot}
use native.Mathlib.Nat.{ℕ_set}
use failover.Base.{
  ℕ, suc, ◌==◌, ◌≡◌, refl, ap, ◌∙◌, Bool, true, false, ◌&&◌, List, length, all, Option, none, some,
  Str,
}
use failover.Version
use failover.Version.{VrrpAddresses}
use failover.Crates.Ipnet.{Ipnet}
use failover.Packet.{VrrpPacket}
use failover.StateMachine.{State, init, backup, master}
use failover.Router.{VirtualRouter, Env, Effect, ipv4_addrs, ipv6_addrs}
use failover.Observer.{Outcome}
use failover.Handlers.{
  contains, count_check, addr_check, expected_count, family_side, process_decoded, on_side,
  in_state, in_backup, in_master,
}

&&_swap : (p q r : Bool) → (p && (q && r)) ≡ (q && (p && r))
&&_swap true q r = refl
&&_swap false true r = refl
&&_swap false false r = refl

module _ {A : Type 0} where
  length-Permᴰ : {xs ys : List A} → Permᴰ xs ys → length xs ≡ length ys
  length-Permᴰ Permᴰ.nil = refl
  length-Permᴰ (Permᴰ.cons e d) = ap suc (length-Permᴰ d)
  length-Permᴰ (Permᴰ.swap e f) = refl
  length-Permᴰ (Permᴰ.trans d d') = length-Permᴰ d ∙ length-Permᴰ d'

  all-Permᴰ : (p : A → Bool) {xs ys : List A} → Permᴰ xs ys → all p xs ≡ all p ys
  all-Permᴰ p Permᴰ.nil = refl
  all-Permᴰ p (Permᴰ.cons {b = b} {l₁ = l₁} e d) =
      ap (λ x. p x && all p l₁) e ∙ ap (λ (r : Bool). p b && r) (all-Permᴰ p d)
  all-Permᴰ p (Permᴰ.swap {a = a} {b = b} {a' = a'} {l = l} e f) =
      &&_swap (p a) (p b) (all p l)
      ∙ ap (λ x. p x && (p a && all p l)) f
      ∙ ap (λ x. p a' && (p x && all p l)) e
  all-Permᴰ p (Permᴰ.trans d d') = all-Permᴰ p d ∙ all-Permᴰ p d'

  length-Perm : (xs ys : List A) → Perm xs ys → length xs ≡ length ys
  length-Perm xs ys h = ∥∥₁_elim h (ℕ_set _ _) length-Permᴰ

  all-Perm : (p : A → Bool) (xs ys : List A) → Perm xs ys → all p xs ≡ all p ys
  all-Perm p xs ys h = ∥∥₁_elim h (Bool-set _ _) (all-Permᴰ p)

-- The same addresses of the same family, in some order.
abbrev pub SameListed : VrrpAddresses → VrrpAddresses → Type 0
SameListed (VrrpAddresses.v4 xs) (VrrpAddresses.v4 ys) = Perm xs ys
SameListed (VrrpAddresses.v6 xs) (VrrpAddresses.v6 ys) = Perm xs ys
SameListed _ _ = ⊥

-- What the handler reads of the addresses that a packet lists.
record SameRead (n : Ipnet) (vr : VirtualRouter) (a a' : VrrpAddresses) : Type 0 where
  counted : count_check vr a ≡ count_check vr a'
  among : addr_check vr a ≡ addr_check vr a'
  expected : expected_count vr a ≡ expected_count vr a'
  len : Version.len a ≡ Version.len a'
  side : family_side n vr a ≡ family_side n vr a'

SameListed-SameRead :
    (n : Ipnet) (vr : VirtualRouter) (a a' : VrrpAddresses) → SameListed a a' → SameRead n vr a a'
unfolding count_check addr_check expected_count Version.len family_side
SameListed-SameRead n vr (VrrpAddresses.v4 xs) (VrrpAddresses.v4 ys) h = record {
  counted = ap (λ (k : ℕ). k == length vr.ipv4_addresses) (length-Perm xs ys h);
  among = all-Perm (contains (ipv4_addrs vr)) xs ys h;
  expected = refl;
  len = length-Perm xs ys h;
  side = refl;
}
SameListed-SameRead n vr (VrrpAddresses.v6 xs) (VrrpAddresses.v6 ys) h = record {
  counted = ap (λ (k : ℕ). k == length vr.ipv6_addresses) (length-Perm xs ys h);
  among = all-Perm (contains (ipv6_addrs vr)) xs ys h;
  expected = refl;
  len = length-Perm xs ys h;
  side = refl;
}
SameListed-SameRead n vr (VrrpAddresses.v4 xs) (VrrpAddresses.v6 ys) h = absurd h
SameListed-SameRead n vr (VrrpAddresses.v6 xs) (VrrpAddresses.v4 ys) h = absurd h

module _ (n : Ipnet) (env : Env) (pkt : VrrpPacket) (vr : VirtualRouter) where
  -- After the checks the handler does not look at the addresses of the packet.
  on_side-addresses :
      (a : VrrpAddresses) (side : Option (Str × List Str)) (logged : List Effect)
      → on_side n env pkt side logged vr
        ≡ on_side n env (record pkt { addresses = a }) side logged vr
  unfolding on_side
  on_side-addresses a none logged = refl
  on_side-addresses a (some side) logged = by_state vr.fsm.state
    where
      by_state :
          (state : State)
          → in_state state n env pkt side logged vr
            ≡ in_state state n env (record pkt { addresses = a }) side logged vr
      by_state init = refl
      by_state backup = refl
      by_state master = refl

  process_decoded-SameRead :
      (ttl : ℕ) (a : VrrpAddresses)
      → SameRead n vr pkt.addresses a
      → process_decoded n env ttl pkt vr
        ≡ process_decoded n env ttl (record pkt { addresses = a }) vr
  unfolding process_decoded in_state in_backup in_master
  process_decoded-SameRead ttl a same =
      rw
        (
          same.counted,
          same.among,
          same.expected,
          same.len,
          same.side,
          on_side-addresses a (family_side n vr a),
        )
        refl

  -- The order in which a packet lists its addresses does not matter: with the same addresses, of
  -- the same family, in another order, the router after it, what it asks for and the result are
  -- the same.
  pub process_decoded-Perm :
      (ttl : ℕ) (a : VrrpAddresses)
      → SameListed pkt.addresses a
      → process_decoded n env ttl pkt vr
        ≡ process_decoded n env ttl (record pkt { addresses = a }) vr
  process_decoded-Perm ttl a same =
      process_decoded-SameRead ttl a (SameListed-SameRead n vr pkt.addresses a same)

-- The addresses of a packet with their order forgotten, and the handler on them.
abbrev pub Addresses : Type 0
Addresses = Quot SameListed

Outcome-set : IsSet Outcome
Outcome-set = hlevel

module _ (n : Ipnet) (env : Env) (ttl : ℕ) (pkt : VrrpPacket) (vr : VirtualRouter) where
  pub process_unordered : Addresses → Outcome
  process_unordered =
      Quot.lift Outcome-set (λ a. process_decoded n env ttl (record pkt { addresses = a }) vr)
        (λ a a' same. process_decoded-Perm n env (record pkt { addresses = a }) vr ttl a' same)

  -- The handler of a packet is the handler of its unordered addresses.
  pub process_decoded-unordered :
      process_decoded n env ttl pkt vr ≡ process_unordered (Quot.mk pkt.addresses)
  unfolding process_unordered
  process_decoded-unordered = refl
