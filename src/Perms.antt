-- ===== src/Perms.antt =====
-- yeetbox-server/src/utils.rs, `unix_perms_to_u16`: the twelve permission flags as mode bits, and
-- the way back, by which yeetbox-server/src/storage/file.rs reads a mode.
pub mod RoundTrip
use yeetbox.Common.{ℕ, Bool, bit_and, bit_or, ltb, if◌then◌else◌}

-- `UnixPermissions` of remotefs.proto.
pub record UnixPermissions : Type 0 where
  pub u_r : Bool
  pub u_w : Bool
  pub u_x : Bool
  pub g_r : Bool
  pub g_w : Bool
  pub g_x : Bool
  pub o_r : Bool
  pub o_w : Bool
  pub o_x : Bool
  pub setuid : Bool
  pub setgid : Bool
  pub sticky : Bool

unfoldable pub unix_perms_to_u16 : UnixPermissions → ℕ
unix_perms_to_u16 perms =
    let u_r : ℕ = if perms.u_r then 0o0400 else 0 in
    let u_w : ℕ = if perms.u_w then 0o0200 else 0 in
    let u_x : ℕ = if perms.u_x then 0o0100 else 0 in
    let g_r : ℕ = if perms.g_r then 0o0040 else 0 in
    let g_w : ℕ = if perms.g_w then 0o0020 else 0 in
    let g_x : ℕ = if perms.g_x then 0o0010 else 0 in
    let o_r : ℕ = if perms.o_r then 0o0004 else 0 in
    let o_w : ℕ = if perms.o_w then 0o0002 else 0 in
    let o_x : ℕ = if perms.o_x then 0o0001 else 0 in
    let sticky : ℕ = if perms.sticky then 0o1000 else 0 in
    let setgid : ℕ = if perms.setgid then 0o2000 else 0 in
    let setuid : ℕ = if perms.setuid then 0o4000 else 0 in
    bit_or
      (bit_or
        (bit_or
          (bit_or
            (bit_or
              (bit_or (bit_or (bit_or (bit_or (bit_or (bit_or u_r u_w) u_x) g_r) g_w) g_x) o_r) o_w)
            o_x)
          sticky)
        setgid)
      setuid

-- `mode & mask > 0`
has_bit : ℕ → ℕ → Bool
has_bit mode bits = ltb 0 (bit_and mode bits)

unfoldable pub perms_of_mode : ℕ → UnixPermissions
unfolding has_bit
perms_of_mode mode = record {
  u_r = has_bit mode 0o0400;
  u_w = has_bit mode 0o0200;
  u_x = has_bit mode 0o0100;
  g_r = has_bit mode 0o0040;
  g_w = has_bit mode 0o0020;
  g_x = has_bit mode 0o0010;
  o_r = has_bit mode 0o0004;
  o_w = has_bit mode 0o0002;
  o_x = has_bit mode 0o0001;
  sticky = has_bit mode 0o1000;
  setgid = has_bit mode 0o2000;
  setuid = has_bit mode 0o4000;
}
