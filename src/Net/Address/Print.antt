-- ===== src/Net/Address/Print.antt =====
-- What an address prints.
use neconet.Prelude.{
  ℕ, ◌%◌, ◌^◌, ◌<◌, ◌≤◌, ◌≡◌, ◌∷◌, ◌++◌, length, length-append, take_all, Option, some, arith,
}
use neconet.Base.Text.{Text, decimal, snprintf}
use neconet.Base.Text.Laws.{length-decimal}
use neconet.Net.Address.{from_host_port, ip_address, write_host_port, to_host_port}
use neconet.Net.Address.Order.{swapped-swapped}

-- The buffer of 32 bytes holds every address and port.
whole :
    (ip : Text) (port : ℕ)
    → length ip ≤ 15
    → port < 2 ^ 16
    → snprintf 32 (ip ++ (b':' ∷ decimal port)) ≡ ip ++ (b':' ∷ decimal port)
whole ip port h k =
    let short : length (decimal port) ≤ 5 = length-decimal 4 port (omega arith) in
    take_all 31 (ip ++ (b':' ∷ decimal port))
      (omega (arith, length-append ip (b':' ∷ decimal port)))

module _ (inet_pton : Text → Option ℕ) (inet_ntop : ℕ → Text) where
  -- The address made from a text that inet_pton accepts and inet_ntop writes back, in at most 15
  -- characters, and from a port prints as this text, a colon and the lower 16 bits of the port.
  pub to_host_port-ip_address :
      (ip : Text) (a port : ℕ)
      → inet_pton ip ≡ some a
      → inet_ntop a ≡ ip
      → length ip ≤ 15
      → to_host_port inet_ntop (ip_address inet_pton ip port)
        ≡ ip ++ (b':' ∷ decimal (port % 2 ^ 16))
  unfolding write_host_port ip_address from_host_port
  to_host_port-ip_address ip a port e f h = rw e (
      rw f (
        rw (swapped-swapped 2 (port % 2 ^ 16) (omega arith))
          (whole ip (port % 2 ^ 16) h (omega arith))))
