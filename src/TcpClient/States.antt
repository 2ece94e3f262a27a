-- ===== src/TcpClient/States.antt =====
-- The state flags of a client are independent of one another.
use linux_tcp_server.Base.{ℕ, ◌<◌, ◌^◌, ◌≡◌, refl, ◌&&◌, ◌||◌, not, arith, ◌==◌, subst₂}
use linux_tcp_server.Flags.{
  has_mask, set_mask, unset_mask, has_mask-set_mask, has_mask-unset_mask, set_mask-lt,
  unset_mask-lt,
}
use linux_tcp_server.TcpClient.{
  TcpClient, ClientState, connect_in_progress, connected, passive_opener, active_opener,
  multiplex_listen, threaded, state_bit, set_state, un_set_state, is_state_set,
}

-- The place of each bit.
abbrev pub place : ClientState → ℕ
place connect_in_progress = 0
place connected = 1
place passive_opener = 3
place active_opener = 4
place multiplex_listen = 5
place threaded = 6

place_lt : (s : ClientState) → place s < 7
place_lt connect_in_progress = omega arith
place_lt _ = omega arith

state_bit-pow : (s : ClientState) → 2 ^ place s ≡ state_bit s
state_bit-pow connect_in_progress = refl
state_bit-pow _ = refl

-- From flags below 128, `SetState` sets its flag and no other, `UnSetState` clears its flag and no
-- other, and neither sets a bit beyond the seven that the flags use.
pub is_state_set_after :
    (c : TcpClient) (s t : ClientState)
    → c.state_flags < 128
    → (is_state_set (set_state c s) t ≡ (place s == place t || is_state_set c t))
      × (is_state_set (un_set_state c s) t ≡ (not (place s == place t) && is_state_set c t))
      × ((set_state c s).state_flags < 128)
      × ((un_set_state c s).state_flags < 128)
unfolding set_state un_set_state is_state_set
is_state_set_after c s t h =
    let law = λ (a b : ℕ).
      (has_mask (set_mask c.state_flags a) b ≡ (place s == place t || has_mask c.state_flags b))
      × (has_mask (unset_mask c.state_flags a) b
          ≡ (not (place s == place t) && has_mask c.state_flags b))
      × (set_mask c.state_flags a < 128)
      × (unset_mask c.state_flags a < 128) in
    subst₂ law (state_bit-pow s) (state_bit-pow t) (
      has_mask-set_mask (place s) (place t) c.state_flags (place_lt s) (place_lt t) h,
      has_mask-unset_mask (place s) (place t) c.state_flags (place_lt s) (place_lt t) h,
      set_mask-lt (place s) (place t) c.state_flags (place_lt s) (place_lt t) h,
      unset_mask-lt (place s) (place t) c.state_flags (place_lt s) (place_lt t) h,
    )
