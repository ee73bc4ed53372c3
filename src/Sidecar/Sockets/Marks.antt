-- ===== src/Sidecar/Sockets/Marks.antt =====
-- sidecar/socket_registry.mjs: what the destruction of sockets marks and counts.
use aegisone_core.Prelude.{
  ℕ, ◌+◌, ◌≡◌, refl, Bool, true, false, List, [], ◌∷◌, Option, none, some, arith, if◌then◌else◌,
  Option-cases, Bool-cases, inl, inr,
}
use aegisone_core.Sidecar.Sockets.{
  SocketState, SocketMetrics, Registry, state_of, set_socket, DestroyReason, destroyed, idle,
  shutdown, count_destroyed, destroy, destroy_each,
}
use aegisone_core.Sidecar.Sockets.Laws.{marked, flag, marked-set_socket}

-- The reasons that a counter is for.
abbrev pub for_any : Option DestroyReason → Bool
for_any none = false
for_any (some k) = true

abbrev pub for_idle : Option DestroyReason → Bool
for_idle (some idle) = true
for_idle _ = false

abbrev pub for_shutdown : Option DestroyReason → Bool
for_shutdown (some shutdown) = true
for_shutdown _ = false

-- A registry that differs by so many new marks for the reason.
pub record IsGrown (k : Option DestroyReason) (d : ℕ) (r r' : Registry) : Type 0 where
  pub marks : marked r'.sockets ≡ marked r.sockets + d
  pub all : r'.metrics.destroyed ≡ r.metrics.destroyed + d
  pub idles : r'.metrics.idle_destroyed ≡ r.metrics.idle_destroyed + (if for_idle k then d else 0)
  pub shutdowns :
      r'.metrics.shutdown_destroyed
      ≡ r.metrics.shutdown_destroyed + (if for_shutdown k then d else 0)

counted_once :
    (k : DestroyReason) (m : SocketMetrics)
    → let n = count_destroyed k m in
      (n.destroyed ≡ m.destroyed + 1)
      × (n.idle_destroyed ≡ m.idle_destroyed + (if for_idle (some k) then 1 else 0))
      × (n.shutdown_destroyed ≡ m.shutdown_destroyed + (if for_shutdown (some k) then 1 else 0))
counted_once destroyed m = (refl, omega arith, omega arith)
counted_once idle m = (refl, refl, omega arith)
counted_once shutdown m = (refl, omega arith, refl)

pub destroy-IsGrown :
    (s : ℕ) (k : DestroyReason) (r : Registry) → (d : ℕ) × IsGrown (some k) d r (destroy s k r)
unfolding destroy
destroy-IsGrown s k r = elim (Option-cases (state_of s r.sockets)) [
  | inl e ↦ rw (e, destroy) (0, still k)
  | inr (x, e) ↦ elim (Bool-cases x.destroyed) [
    | inl d ↦ rw (e, destroy, d) (0, still k)
    | inr d ↦ rw (e, destroy, d) (1, marked_once k x e d)
  ]
]
  where
    still : (k : DestroyReason) → IsGrown (some k) 0 r r
    still destroyed = record {
      marks = omega arith;
      all = omega arith;
      idles = omega arith;
      shutdowns = omega arith;
    }
    still idle = record {
      marks = omega arith;
      all = omega arith;
      idles = omega arith;
      shutdowns = omega arith;
    }
    still shutdown = record {
      marks = omega arith;
      all = omega arith;
      idles = omega arith;
      shutdowns = omega arith;
    }

    marked_once :
        (k : DestroyReason) (x : SocketState)
        → state_of s r.sockets ≡ some x
        → x.destroyed ≡ false
        → IsGrown (some k) 1 r (record r {
          sockets = set_socket s (record x { destroyed = true }) r.sockets;
          metrics = count_destroyed k r.metrics;
        })
    marked_once k x e d =
        let m = marked-set_socket s (record x { destroyed = true }) r.sockets in
        let unmarked : flag (state_of s r.sockets) ≡ 0 = rw (e, d) refl in
        let (all, idles, shutdowns) = counted_once k r.metrics in
        record {
          marks = omega (arith, m, unmarked);
          all = all;
          idles = idles;
          shutdowns = shutdowns;
        }

pub destroy_each-IsGrown :
    (ss : List ℕ) (k : DestroyReason) (r : Registry)
    → (d : ℕ) × IsGrown (some k) d r (destroy_each ss k r)
destroy_each-IsGrown [] k r = (
  0,
  record { marks = omega arith; all = omega arith; idles = ground arith; shutdowns = ground arith },
)
destroy_each-IsGrown (s ∷ ss) k r =
    let (a, first) = destroy-IsGrown s k r in
    let (b, rest) = destroy_each-IsGrown ss k (destroy s k r) in
    (
      a + b,
      record {
        marks = omega (arith, first.marks, rest.marks);
        all = omega (arith, first.all, rest.all);
        idles = ground (arith, first.idles, rest.idles);
        shutdowns = ground (arith, first.shutdowns, rest.shutdowns);
      },
    )
