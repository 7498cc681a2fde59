-- ===== src/Perms/RoundTrip.antt =====
-- All 4096 permission sets are checked by evaluation (yeetbox-server/src/utils.rs).
use mathlib.Core.Bool.{Bool-discrete, decide, decide_iff}
use yeetbox.Common.{◌<◌, Bool, true, false, ◌&&◌, ◌≡◌, refl, arith, ltb}
use yeetbox.Perms.{UnixPermissions, unix_perms_to_u16, perms_of_mode}

both : (Bool → Bool) → Bool
both p = p true && p false

both_sound : (p : Bool → Bool) → both p ≡ true → (b : Bool) → p b ≡ true
unfolding both
both_sound p h true = ground arith
both_sound p h false = ground arith

abbrev all_perms : (UnixPermissions → Bool) → Bool
all_perms p = both λ a. both λ b. both λ c. both λ d. both λ e. both λ f. both λ g. both λ h.
    both λ i. both λ j. both λ k. both λ l. p (record {
      u_r = a;
      u_w = b;
      u_x = c;
      g_r = d;
      g_w = e;
      g_x = f;
      o_r = g;
      o_w = h;
      o_x = i;
      setuid = j;
      setgid = k;
      sticky = l;
    })

all_perms_sound :
    (p : UnixPermissions → Bool) → all_perms p ≡ true → (x : UnixPermissions) → p x ≡ true
all_perms_sound p all x =
    both_sound _
      (both_sound _
        (both_sound _
          (both_sound _
            (both_sound _
              (both_sound _
                (both_sound _
                  (both_sound _
                    (both_sound _ (both_sound _ (both_sound _ (both_sound _ all x.u_r) x.u_w) x.u_x)
                      x.g_r)
                    x.g_w)
                  x.g_x)
                x.o_r)
              x.o_w)
            x.o_x)
          x.setuid)
        x.setgid)
      x.sticky

perms_discrete : Discrete UnixPermissions
perms_discrete = hlevel Bool-discrete

round_trips : UnixPermissions → Bool
unfolding perms_discrete unix_perms_to_u16 perms_of_mode
round_trips x =
    let mode = unix_perms_to_u16 x in
    ltb mode 4096 && decide (perms_discrete (perms_of_mode mode) x)

table : all_perms round_trips ≡ true
unfolding both round_trips decide
table = refl

split_and : (a b : Bool) → (a && b) ≡ true → (a ≡ true) × (b ≡ true)
split_and a b h = ground arith

round_trip_parts :
    (x : UnixPermissions)
    → (ltb (unix_perms_to_u16 x) 4096 ≡ true)
      × (decide (perms_discrete (perms_of_mode (unix_perms_to_u16 x)) x) ≡ true)
unfolding round_trips
round_trip_parts x = split_and _ _ (all_perms_sound round_trips table x)

-- The mode bits of a permission set fit in 12 bits and give back all twelve flags.
pub perms_of_mode-unix_perms_to_u16 :
    (x : UnixPermissions) → (unix_perms_to_u16 x < 4096) × (perms_of_mode (unix_perms_to_u16 x) ≡ x)
perms_of_mode-unix_perms_to_u16 x = (
  ground (arith, (round_trip_parts x).0),
  (decide_iff (perms_discrete _ x)).0 (round_trip_parts x).1,
)
