-- ===== src/Controller/Bits.antt =====
-- The bits of a controller's flags are independent of one another.
use linux_tcp_server.Base.{ℕ, ◌<◌, ◌^◌, ◌≡◌, refl, subst₂, ◌&&◌, ◌||◌, not, arith, ◌==◌}
use linux_tcp_server.Flags.{
  has_mask, set_mask, unset_mask, has_mask-set_mask, has_mask-unset_mask, set_mask-lt,
  unset_mask-lt,
}
use linux_tcp_server.Controller.{
  TcpServerController, ServerBit, tcp_server_initialized, tcp_server_running,
  tcp_server_not_accepting_new_connections, tcp_server_not_listening_clients,
  tcp_server_create_multi_thread_client, bit_value, set_bit, is_bit_set, un_set_bit,
}

abbrev bit_place : ServerBit → ℕ
bit_place tcp_server_initialized = 0
bit_place tcp_server_running = 1
bit_place tcp_server_not_accepting_new_connections = 2
bit_place tcp_server_not_listening_clients = 3
bit_place tcp_server_create_multi_thread_client = 4

bit_place_lt : (b : ServerBit) → bit_place b < 7
bit_place_lt tcp_server_initialized = omega arith
bit_place_lt _ = omega arith

bit_value-pow : (b : ServerBit) → 2 ^ bit_place b ≡ bit_value b
bit_value-pow tcp_server_initialized = refl
bit_value-pow _ = refl

-- From flags below 128, `SetBit` sets its bit and no other, `UnSetBit` clears its bit and no other,
-- and neither sets a bit beyond the lowest seven.
pub is_bit_set_after :
    (c : TcpServerController) (a b : ServerBit)
    → c.state_flags < 128
    → (is_bit_set b (set_bit a c) ≡ (bit_place a == bit_place b || is_bit_set b c))
      × (is_bit_set b (un_set_bit a c) ≡ (not (bit_place a == bit_place b) && is_bit_set b c))
      × ((set_bit a c).state_flags < 128)
      × ((un_set_bit a c).state_flags < 128)
unfolding set_bit un_set_bit is_bit_set
is_bit_set_after c a b h =
    let law = λ (x y : ℕ).
      (has_mask (set_mask c.state_flags x) y
        ≡ (bit_place a == bit_place b || has_mask c.state_flags y))
      × (has_mask (unset_mask c.state_flags x) y
          ≡ (not (bit_place a == bit_place b) && has_mask c.state_flags y))
      × (set_mask c.state_flags x < 128)
      × (unset_mask c.state_flags x < 128) in
    subst₂ law (bit_value-pow a) (bit_value-pow b) (
      has_mask-set_mask (bit_place a) (bit_place b) c.state_flags (bit_place_lt a) (bit_place_lt b)
          h,
      has_mask-unset_mask (bit_place a) (bit_place b) c.state_flags (bit_place_lt a)
          (bit_place_lt b) h,
      set_mask-lt (bit_place a) (bit_place b) c.state_flags (bit_place_lt a) (bit_place_lt b) h,
      unset_mask-lt (bit_place a) (bit_place b) c.state_flags (bit_place_lt a) (bit_place_lt b) h,
    )
