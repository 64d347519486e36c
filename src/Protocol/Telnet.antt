-- ===== src/Protocol/Telnet.antt =====
-- openmux/server/adapters/protocols/plain.py: the bytes of a telnet server, whose commands are
-- stripped.
use openmux_server.Base.{ℕ, Bool, ◌||◌, [], ◌∷◌, Text, ◌==◌, if◌then◌else◌}
use openmux_server.Protocol.Conserver.{iac}

abbrev pub se : ℕ
se = 240

abbrev pub sb : ℕ
sb = 250

-- WILL, WONT, DO and DONT
unfoldable pub is_option : ℕ → Bool
is_option b = b == 251 || b == 252 || b == 253 || b == 254

pub data IacState : Type 0 where
  data_state : IacState
  iac_state : IacState
  iac_option : IacState
  subneg : IacState
  subneg_iac : IacState

-- `_strip_iac_command_byte`
unfoldable pub strip_iac_command_byte : ℕ → Text × IacState
unfolding is_option
strip_iac_command_byte b =
    if b == iac
    then (iac ∷ [], data_state)
    else if b == sb
    then ([], subneg)
    else if is_option b
    then ([], iac_option)
    else ([], data_state)

-- `_strip_one_byte`
unfoldable pub strip_one_byte : IacState → ℕ → Text × IacState
unfolding strip_iac_command_byte
strip_one_byte data_state b = if b == iac then ([], iac_state) else (b ∷ [], data_state)
strip_one_byte iac_state b = strip_iac_command_byte b
strip_one_byte iac_option b = ([], data_state)
strip_one_byte subneg b = if b == iac then ([], subneg_iac) else ([], subneg)
strip_one_byte subneg_iac b = if b == se then ([], data_state) else ([], subneg)
