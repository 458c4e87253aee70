-- ===== src/Icons/Favicon/Blocking.antt =====
-- The addresses that fetching an icon may reach.
use a6_core.Prelude.{
  ℕ, ◌+◌, ◌*◌, ◌/◌, ◌≤◌, ◌<◌, String, Bool, true, false, Option, none, some, List, [], ◌∷◌, ◌≡◌,
  ◌≢◌, All, refl, if_lem, eqb, arith, ◌||◌, ◌&&◌,
}
use a6_core.Http.{Ip, v4, v6, is_loopback}
use a6_core.Icons.Favicon.{
  is_blocked_ip, is_unspecified, Dial, refused_dial, dial, any_blocked, dial_resolved,
  safe_dial_context,
}

-- an address of IPv4 as a number of 32 bits
abbrev pub number : ℕ → ℕ → ℕ → ℕ → ℕ
number a b c d = ((a * 256 + b) * 256 + c) * 256 + d

-- outside the block that starts at `from` and has `size` addresses
abbrev pub Outside : ℕ → ℕ → ℕ → Type 0
Outside from size n = from ≤ n → n < from + size → ⊥

-- An address of the public Internet: not of this machine, of a private network, of a link, shared
-- by a provider, or of a group.
pub record IsPublicNumber (n : ℕ) : Type 0 where
  pub not_zero : n ≢ 0
  pub not_ten : Outside (number 10 0 0 0) (256 * 256 * 256) n
  pub not_shared : Outside (number 100 64 0 0) (64 * 256 * 256) n
  pub not_loopback : Outside (number 127 0 0 0) (256 * 256 * 256) n
  pub not_link : Outside (number 169 254 0 0) (256 * 256) n
  pub not_172 : Outside (number 172 16 0 0) (16 * 256 * 256) n
  pub not_192 : Outside (number 192 168 0 0) (256 * 256) n
  pub not_group : Outside (number 224 0 0 0) (16 * 256 * 256 * 256) n

-- the same for the first group of an address of IPv6, and neither `::` nor `::1`
pub record IsPublicGroups (g : ℕ) (gs : List ℕ) : Type 0 where
  pub not_unique_local : Outside 0xfc00 0x200 g
  pub not_link : Outside 0xfe80 0x40 g
  pub not_group : Outside 0xff00 0x100 g
  pub not_unspecified : is_unspecified (v6 (g ∷ gs)) ≡ false
  pub not_loopback : is_loopback (v6 (g ∷ gs)) ≡ false

abbrev pub IsPublic : Option Ip → Type 0
IsPublic none = ⊥
IsPublic (some (v4 a b c d)) =
    a < 256 → b < 256 → c < 256 → d < 256 → IsPublicNumber (number a b c d)
IsPublic (some (v6 [])) = ⊥
IsPublic (some (v6 (g ∷ gs))) = g < 65536 → IsPublicGroups g gs

or_first : (a b : Bool) → (a || b) ≡ false → a ≡ false
or_first true b h = h
or_first false b h = refl

or_second : (a b : Bool) → (a || b) ≡ false → b ≡ false
or_second true b h = absurd (cc h)
or_second false b h = h

module _ (a b c d : ℕ) (hb : b < 256) (hc : c < 256) (hd : d < 256) where
  -- a block of IPv4 by its first byte
  outside_byte :
      (k : ℕ) → eqb a k ≡ false → Outside (number k 0 0 0) (256 * 256 * 256) (number a b c d)
  outside_byte k h lo hi =
      let e : a ≡ k = omega (arith, lo, hi, hb, hc, hd) in absurd (ground (arith, h, e))

  outside_172 :
      (eqb a 172 && eqb (b / 16) 1) ≡ false
      → Outside (number 172 16 0 0) (16 * 256 * 256) (number a b c d)
  outside_172 h lo hi =
      let e : a ≡ 172 = omega (arith, lo, hi, hb, hc, hd) in
      let f : b / 16 ≡ 1 = omega (arith, lo, hi, hb, hc, hd, e) in absurd (ground (arith, h, e, f))

  outside_shared :
      (eqb a 100 && eqb (b / 64) 1) ≡ false
      → Outside (number 100 64 0 0) (64 * 256 * 256) (number a b c d)
  outside_shared h lo hi =
      let e : a ≡ 100 = omega (arith, lo, hi, hb, hc, hd) in
      let f : b / 64 ≡ 1 = omega (arith, lo, hi, hb, hc, hd, e) in absurd (ground (arith, h, e, f))

  outside_two :
      (k m : ℕ)
      → m < 256
      → (eqb a k && eqb b m) ≡ false
      → Outside (number k m 0 0) (256 * 256) (number a b c d)
  outside_two k m hm h lo hi =
      let e : a ≡ k = omega (arith, lo, hi, hb, hc, hd, hm) in
      let f : b ≡ m = omega (arith, lo, hi, hb, hc, hd, e) in absurd (ground (arith, h, e, f))

  outside_groups :
      eqb (a / 16) 14 ≡ false → Outside (number 224 0 0 0) (16 * 256 * 256 * 256) (number a b c d)
  outside_groups h lo hi =
      let e : a / 16 ≡ 14 = omega (arith, lo, hi, hb, hc, hd) in absurd (ground (arith, h, e))

  number_ne_zero : is_unspecified (v4 a b c d) ≡ false → number a b c d ≢ 0
  number_ne_zero h e =
      let ea : a ≡ 0 = omega (arith, e) in
      let eb : b ≡ 0 = omega (arith, e) in
      let ec : c ≡ 0 = omega (arith, e) in
      let ed : d ≡ 0 = omega (arith, e) in absurd (ground (arith, h, ea, eb, ec, ed))

-- a group of IPv6 by its highest bits
module _ (g : ℕ) where
  outside_unique_local : eqb (g / 512) 126 ≡ false → Outside 0xfc00 0x200 g
  outside_unique_local h lo hi =
      let e : g / 512 ≡ 126 = omega (arith, lo, hi) in absurd (ground (arith, h, e))

  outside_link : eqb (g / 64) 1018 ≡ false → Outside 0xfe80 0x40 g
  outside_link h lo hi =
      let e : g / 64 ≡ 1018 = omega (arith, lo, hi) in absurd (ground (arith, h, e))

  outside_group : eqb (g / 256) 255 ≡ false → Outside 0xff00 0x100 g
  outside_group h lo hi =
      let e : g / 256 ≡ 255 = omega (arith, lo, hi) in absurd (ground (arith, h, e))

unblocked-IsPublic : (o : Option Ip) → is_blocked_ip o ≡ false → IsPublic o
unfolding is_blocked_ip
unblocked-IsPublic none h = absurd (cc h)
unblocked-IsPublic (some (v4 a b c d)) h = λ ha hb hc hd. record {
  not_zero = number_ne_zero a b c d hb hc hd (ground (arith, h));
  not_ten = outside_byte a b c d hb hc hd 10 (ground (arith, h));
  not_shared = outside_shared a b c d hb hc hd (ground (arith, h));
  not_loopback = outside_byte a b c d hb hc hd 127 (ground (arith, h));
  not_link = outside_two a b c d hb hc hd 169 254 (omega arith) (ground (arith, h));
  not_172 = outside_172 a b c d hb hc hd (ground (arith, h));
  not_192 = outside_two a b c d hb hc hd 192 168 (omega arith) (ground (arith, h));
  not_group = outside_groups a b c d hb hc hd (ground (arith, h));
}
unblocked-IsPublic (some (v6 [])) h = absurd (cc h)
unblocked-IsPublic (some (v6 (g ∷ gs))) h = λ hg. record {
  not_unique_local = outside_unique_local g (ground (arith, h));
  not_link = outside_link g (ground (arith, h));
  not_group = outside_group g (ground (arith, h));
  not_unspecified = ground (arith, h);
  not_loopback = ground (arith, h);
}

All-unblocked-ArePublic : (ips : List (Option Ip)) → any_blocked ips ≡ false → All IsPublic ips
unfolding is_blocked_ip
All-unblocked-ArePublic [] h = tt
All-unblocked-ArePublic (ip ∷ ips) h = (
  unblocked-IsPublic ip (or_first (is_blocked_ip ip) (any_blocked ips) h),
  All-unblocked-ArePublic ips (or_second (is_blocked_ip ip) (any_blocked ips) h),
)

-- what is dialled is the first of the addresses of the host, all of which are public
abbrev pub DialEnds :
    (String → Option (List (Option Ip))) → Option (String × String) → Dial → Type 0
DialEnds lookup address (refused_dial e) = Unit
DialEnds lookup none (dial ip port) = ⊥
DialEnds lookup (some (host, p)) (dial ip port) =
    (p ≡ port)
    × ((others : List (Option Ip)) × (lookup host ≡ some (ip ∷ others))
        × All IsPublic (ip ∷ others))

resolved_lem :
    (lookup : String → Option (List (Option Ip))) (host port : String)
    (found : Option (List (Option Ip)))
    → lookup host ≡ found
    → DialEnds lookup (some (host, port)) (dial_resolved port found)
resolved_lem lookup host port none h = tt
resolved_lem lookup host port (some []) h = tt
resolved_lem lookup host port (some (ip ∷ ips)) h =
    if_lem (DialEnds lookup (some (host, port))) (any_blocked (ip ∷ ips)) _ _ (λ _. tt)
      (λ free. (refl, (ips, h, All-unblocked-ArePublic (ip ∷ ips) free)))

-- Whatever a host resolves to, fetching an icon only ever dials a public address: the first one the
-- resolver answered, in the very call whose answers were tested, and only if all of them are
-- public. No address of this machine, of a private or shared network, of a link or of a group is
-- dialled, in IPv4 or in IPv6.
pub only_public_dials :
    (lookup : String → Option (List (Option Ip))) (address : Option (String × String))
    → DialEnds lookup address (safe_dial_context lookup address)
unfolding safe_dial_context
only_public_dials lookup none = tt
only_public_dials lookup (some (host, port)) = resolved_lem lookup host port (lookup host) refl
