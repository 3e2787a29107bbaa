-- ===== src/Net/Address/Tests.antt =====
-- Addresses with `inet_pton` and `inet_ntop` given on two texts.
use neconet.Prelude.{
  ℕ, ◌+◌, ◌%◌, ◌^◌, ◌≡◌, refl, [], ◌∷◌, ◌++◌, Option, none, some, if◌then◌else◌, ◌==◌, arith,
}
use neconet.Base.Text.{Text, digits, decimal, text_eq}
use neconet.Net.Address.{
  ip_address, any_address, write_host_port, to_host_port, swapped, host_to_network16,
  host_to_network32,
}
use neconet.Net.Address.Print.{to_host_port-ip_address}

-- 127.0.0.1 and 0.0.0.0.
abbrev local_text : Text
local_text = b'1' ∷ b'2' ∷ b'7' ∷ b'.' ∷ b'0' ∷ b'.' ∷ b'0' ∷ b'.' ∷ b'1' ∷ []

abbrev any_text : Text
any_text = b'0' ∷ b'.' ∷ b'0' ∷ b'.' ∷ b'0' ∷ b'.' ∷ b'0' ∷ []

abbrev local_addr : ℕ
local_addr = 127 + 2 ^ 24

abbrev pton : Text → Option ℕ
pton t =
    if text_eq t local_text then some local_addr else if text_eq t any_text then some 0 else none

abbrev ntop : ℕ → Text
ntop a = if a == local_addr then local_text else any_text

-- The bytes change places.
port_order : host_to_network16 258 ≡ 513
unfolding swapped
port_order = refl

host_order : host_to_network32 2130706433 ≡ local_addr
unfolding swapped
host_order = refl

to_host_port-ip_address_example :
    to_host_port ntop (ip_address pton local_text 9981)
    ≡ local_text ++ (b':' ∷ decimal (9981 % 2 ^ 16))
to_host_port-ip_address_example =
    to_host_port-ip_address pton ntop local_text local_addr 9981 refl refl (omega arith)

-- The port 65536 is 0.
port_cut : to_host_port ntop (any_address 65536) ≡ any_text ++ (b':' ∷ b'0' ∷ [])
unfolding any_address write_host_port swapped decimal digits
port_cut = refl

-- A text that inet_pton refuses leaves the address of all interfaces.
address_refused : ip_address pton (b'x' ∷ []) 9981 ≡ any_address 9981
unfolding ip_address neconet.Net.Address.from_host_port any_address swapped
address_refused = refl
