-- ===== src/Handle/Alive.antt =====
-- The message ids and the keepalive of lib/util_mosq.c.
use kocom.Prelude.{ℕ, ◌+◌, ◌≤◌, ◌<◌, ◌≡◌, ◌≢◌, ◌⊎◌, true, false, arith, ◌++◌, ◌∷◌, [], refl, some}
use kocom.Proto.{cs_connected, err_success}
use kocom.Packet.{Packet}
use kocom.Client.{Client, head_rc, tail_rcs, sent_pingreq, on_disconnect, send, notify}
use kocom.Handle.{mid_generate, check_keepalive, send_pingreq, handle_pingresp}

-- From a last id that is a uint16_t, the next id is one of 1 to 65535, differs from the last one,
-- follows it directly unless the numbers start again at 1, and is the client's new last id.
pub mid_generate-range :
    (c : Client)
    → c.last_mid < 65536
    → (1 ≤ (mid_generate c).0)
      × ((mid_generate c).0 < 65536)
      × ((mid_generate c).0 ≢ c.last_mid)
      × (((mid_generate c).0 ≡ c.last_mid + 1) ⊎ ((mid_generate c).0 ≡ 1))
      × ((mid_generate c).1.last_mid ≡ (mid_generate c).0)
unfolding mid_generate
mid_generate-range c h = ground arith

-- What a client whose connection is watched looks like after a check at the time `now`: it has been
-- disconnected, or a packet has gone out and one has come in (a ping counts as both) less than the
-- keepalive ago.
abbrev IsAlive : ℕ → Client → Type 0
IsAlive now c =
    (c.connected ≡ false)
    ⊎ ((now < c.last_msg_out + c.keepalive) × (now < c.last_msg_in + c.keepalive))

-- With a keepalive other than 0, after the check the client is disconnected, or the next check is
-- not due yet.
check_keepalive-IsAlive :
    (now : ℕ) (c : Client) → c.keepalive ≢ 0 → IsAlive now (check_keepalive now c)
unfolding check_keepalive send_pingreq send notify
check_keepalive-IsAlive now c k = ground arith

-- A connection that is up and in the state connected, where no ping waits and a check is due, is
-- pinged; the ping can be sent. A check before the keepalive has passed again does nothing. If the
-- keepalive passes without an answer, the next check ends the connection and reports an unexpected
-- end, code 1; if a PINGRESP has been handled before it, it sends another ping instead and the
-- connection stays up. The keepalive and the time of the first check are not 0.
pub check_keepalive_detects :
    (now soon later : ℕ) (p : Packet) (c : Client)
    → c.keepalive ≢ 0
    → now ≢ 0
    → c.connected ≡ true
    → c.state ≡ cs_connected
    → c.ping_t ≡ 0
    → head_rc c.rcs ≡ 0
    → (c.last_msg_in + c.keepalive ≤ now) ⊎ (c.last_msg_out + c.keepalive ≤ now)
    → soon < now + c.keepalive
    → now + c.keepalive ≤ later
    → (pinged : Client) × (answered : Client) × (check_keepalive now c ≡ pinged)
      × (pinged.connected ≡ true)
      × (pinged.events ≡ c.events ++ (sent_pingreq ∷ []))
      × (check_keepalive soon pinged ≡ pinged)
      × ((check_keepalive later pinged).connected ≡ false)
      × ((check_keepalive later pinged).events ≡ pinged.events ++ (on_disconnect 1 ∷ []))
      × (handle_pingresp p pinged ≡ some (err_success, p, answered))
      × ((check_keepalive later answered).connected ≡ true)
      × ((check_keepalive later answered).events ≡ pinged.events ++ (sent_pingreq ∷ []))
unfolding check_keepalive send_pingreq send notify handle_pingresp
check_keepalive_detects now soon later p c k n up on idle sent due before behind =
    let pinged : Client = record c {
      ping_t = now;
      last_msg_in = now;
      last_msg_out = now;
      rcs = tail_rcs c.rcs;
      events = c.events ++ (sent_pingreq ∷ []);
    } in
    (
      pinged,
      record pinged { ping_t = 0 },
      ground (arith, k, up, on, idle, sent, due),
      up,
      refl,
      ground (arith, before, n),
      ground (arith, k, up, on, n, behind),
      ground (arith, k, up, on, n, behind),
      refl,
      ground (arith, k, up, on, behind),
      ground (arith, k, up, on, behind),
    )
