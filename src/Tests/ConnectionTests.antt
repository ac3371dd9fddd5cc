-- ===== src/Tests/ConnectionTests.antt =====
-- A connection that is closed, and one that is made at the third attempt.
use star_bridge.Base.{
  ℕ, zero, suc, ◌≡◌, refl, false, Option, none, some, arith, if◌then◌else◌, codes,
}
use star_bridge.Connection.{NativeConnection, nc_init, nc_set_uds, nc_close, prepared, nc_reconnect}
use star_bridge.Connection.Close.{closes, holds, nc_close-closes}
use star_bridge.Connection.Reconnect.{Outcome, doubled, nc_reconnect-Outcome}

abbrev socket : NativeConnection
unfolding nc_set_uds
socket = nc_set_uds 7 0 nc_init

nc_close-closes_example :
    (closes 7 (nc_close socket).0 ≡ (if holds 7 socket then 1 else 0))
    × (holds 7 (nc_close socket).1 ≡ false)
nc_close-closes_example = nc_close-closes socket 7

-- The engine listens from the third attempt on.
abbrev attempt : ℕ → Option ℕ
attempt zero = none
attempt (suc zero) = none
attempt (suc (suc n)) = some 9

nc_reconnect-Outcome_example :
    Outcome attempt (prepared socket) 2 (nc_reconnect attempt (codes "s") socket)
unfolding doubled nc_set_uds
nc_reconnect-Outcome_example =
    nc_reconnect-Outcome attempt (codes "s") socket 2 refl refl refl (omega arith)
