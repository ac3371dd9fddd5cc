-- ===== src/Connection/Close.antt =====
-- Which descriptors `nc_close` closes.
use star_bridge.Base.{
  ℕ, ◌+◌, ◌≡◌, refl, Bool, false, ◌||◌, some, List, [], ◌∷◌, ◌==◌, if◌then◌else◌, arith,
}
use star_bridge.Connection.{NativeConnection, Call, close_fd, same_fd, close_if, nc_close}

-- How often a descriptor is closed.
pub closes : ℕ → List Call → ℕ
closes fd [] = 0
closes fd (close_fd n ∷ calls) = (if n == fd then 1 else 0) + closes fd calls
closes fd (_ ∷ calls) = closes fd calls

-- A descriptor is one of the connection's.
pub holds : ℕ → NativeConnection → Bool
unfolding same_fd
holds fd nc =
    same_fd nc.read_fd (some fd) || same_fd nc.write_fd (some fd) || same_fd nc.socket_fd (some fd)

-- `nc_close` closes each descriptor of the connection exactly once, however many of its fields
-- share it, and no other descriptor; and no descriptor is left in the connection.
pub nc_close-closes :
    (nc : NativeConnection) (fd : ℕ)
    → (closes fd (nc_close nc).0 ≡ (if holds fd nc then 1 else 0))
      × (holds fd (nc_close nc).1 ≡ false)
unfolding nc_close closes holds same_fd close_if
nc_close-closes nc fd = (ground arith, refl)
