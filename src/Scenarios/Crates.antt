-- ===== src/Scenarios/Crates.antt =====
-- Concrete functions for what the crates `bytes`, `internet-checksum` and `ipnet` do, of which the
-- hypotheses on them hold.
use failover.Base.{
  ℕ, ◌+◌, ◌-◌, ◌*◌, ◌/◌, ◌%◌, ◌^◌, ◌<◌, ltb, ◌==◌, ◌≡◌, refl, ap, ◌∙◌, if◌then◌else◌, List, [], ◌∷◌,
  ◌++◌, Option, none, some, Str, be_bytes, arith, length,
}
use failover.Crates.Buffer.{Buffer, IsBuffer, read}
use failover.Crates.Checksum.{Checksum, IsChecksum}
use failover.Crates.Ipnet.{Ipnet, IsIpnet, IsRanged}
use failover.Net.{IpNet, IpNet4}

abbrev pub bytes_buffer : Buffer
bytes_buffer = record {
  put_u8 = λ buf n. buf ++ be_bytes 1 n;
  put_u16 = λ buf n. buf ++ be_bytes 2 n;
  put_u32 = λ buf n. buf ++ be_bytes 4 n;
  put_u128 = λ buf n. buf ++ be_bytes 16 n;
  put_slice = λ buf src. buf ++ src;
  get_u8 = λ buf. read 1 buf;
  get_u16 = λ buf. read 2 buf;
  get_u32 = λ buf. read 4 buf;
  get_u128 = λ buf. read 16 buf;
}

pub bytes_buffer-IsBuffer : IsBuffer bytes_buffer
bytes_buffer-IsBuffer = record {
  put_u8_lem = λ buf n. refl;
  put_u16_lem = λ buf n. refl;
  put_u32_lem = λ buf n. refl;
  put_u128_lem = λ buf n. refl;
  put_slice_lem = λ buf src. refl;
  get_u8_lem = λ buf. refl;
  get_u16_lem = λ buf. refl;
  get_u32_lem = λ buf. refl;
  get_u128_lem = λ buf. refl;
}

-- The sum of the 16-bit words.
abbrev words_sum : List ℕ → ℕ
words_sum [] = 0
words_sum (x ∷ []) = x * 256
words_sum (x ∷ y ∷ bytes) = x * 256 + y + words_sum bytes

-- The carries added back in, and the complement.
abbrev fold : ℕ → ℕ
fold s = if s == 0 then 0 else (s - 1) % 65535 + 1

abbrev pub rfc1071 : Checksum
rfc1071 = record {
  State = ℕ;
  new = 0;
  add_bytes = λ s bytes. s + words_sum bytes;
  checksum = λ s. ((65535 - fold s) / 256, (65535 - fold s) % 256);
}

words_sum-append :
    (before after : List ℕ) (x y : ℕ)
    → length before % 2 ≡ 0
    → words_sum (before ++ x ∷ y ∷ after) ≡ words_sum before + (x * 256 + y) + words_sum after
words_sum-append [] after x y even = omega arith
words_sum-append (u ∷ []) after x y even = absurd (omega arith)
words_sum-append (u ∷ v ∷ before) after x y even =
    omega (arith, words_sum-append before after x y (omega arith))

fold_complement : (s : ℕ) → fold (s + (65535 - fold s)) ≡ 65535
fold_complement s = ground arith

complement_bytes :
    (s before after : ℕ)
    → let f = 65535 - fold (s + (before + 0 + after)) in
      s + (before + (f / 256 * 256 + f % 256) + after)
      ≡ s + (before + 0 + after) + (65535 - fold (s + (before + 0 + after)))
complement_bytes s before after = omega arith

pub rfc1071-IsChecksum : IsChecksum rfc1071
rfc1071-IsChecksum = record {
  is_bytes = λ s. (omega arith, omega arith);
  verifies = λ s before after aligned even. verified s before after even;
}
  where
    verified :
        (s : ℕ) (before after : List ℕ)
        → length before % 2 ≡ 0
        → let k = rfc1071.checksum (s + words_sum (before ++ 0 ∷ 0 ∷ after)) in
          rfc1071.checksum (s + words_sum (before ++ k.0 ∷ k.1 ∷ after)) ≡ (0, 0)
    verified s before after even =
        let total = s + words_sum (before ++ 0 ∷ 0 ∷ after) in
        let f = 65535 - fold total in
        let e0 = words_sum-append before after 0 0 even in
        let e1 = words_sum-append before after (f / 256) (f % 256) even in
        let sum : s + words_sum (before ++ (f / 256) ∷ (f % 256) ∷ after) ≡ total + f =
          omega (arith, e0, e1) in
        ap (λ (t : ℕ). ((65535 - t) / 256, (65535 - t) % 256)) (ap fold sum ∙ fold_complement total)

-- Networks print as their two numbers, after a colon for IPv6.
abbrev read_net : Str → Option IpNet
read_net (a ∷ p ∷ []) =
    if ltb a (2 ^ 32) then some (IpNet.v4 (record { addr = a; prefix_len = p })) else none
read_net (colon ∷ a ∷ p ∷ []) = some (IpNet.v6 (record { addr = a; prefix_len = p }))
read_net _ = none

abbrev pub numbers : Ipnet
numbers = record {
  from_str = read_net;
  to_string4 = λ net. net.addr ∷ net.prefix_len ∷ [];
  to_string6 = λ net. 58 ∷ net.addr ∷ net.prefix_len ∷ [];
}

read_net-fits4 : (s : Str) (net : IpNet4) → read_net s ≡ some (IpNet.v4 net) → net.addr < 2 ^ 32
read_net-fits4 [] net h = cc
read_net-fits4 (a ∷ []) net h = cc
read_net-fits4 (a ∷ p ∷ []) net h = ground arith
read_net-fits4 (a ∷ b ∷ p ∷ []) net h = cc
read_net-fits4 (a ∷ b ∷ p ∷ q ∷ rest) net h = cc

pub numbers-IsIpnet : IsIpnet numbers
numbers-IsIpnet = record {
  from_str-to_string4 = λ net fits short. ground arith;
  from_str-to_string6 = λ net fits short. refl;
}

pub numbers-IsRanged : IsRanged numbers
numbers-IsRanged = record { from_str-fits4 = read_net-fits4 }
