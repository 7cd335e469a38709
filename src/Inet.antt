-- ===== src/Inet.antt =====
-- mymuduo/InetAddress.cpp: an address of IPv4 and its text. The conversions of <arpa/inet.h> are a
-- parameter.
pub mod Toy
use my_testserver.Prelude.{
  ℕ, ◌^◌, ◌<◌, ◌≤◌, ◌≡◌, ◌++◌, length, length-append, length-take, take, Bytes, codes, arith,
}
use my_testserver.Prelude.Int.{pos, to_string, length-to_string_le}

pub record Arpa : Type 0 where
  pub htons : ℕ → ℕ
  pub ntohs : ℕ → ℕ
  pub inet_addr : Bytes → ℕ
  pub inet_ntop : ℕ → Bytes

-- inet_ntop(3): INET_ADDRSTRLEN is 16 with the closing zero; htons(3): an uint16_t, there and back.
pub record IsLawful (arpa : Arpa) : Type 0 where
  pub length-inet_ntop_le : (s_addr : ℕ) → length (arpa.inet_ntop s_addr) ≤ 15
  pub ntohs_lt : (p : ℕ) → arpa.ntohs p < 2 ^ 16
  pub ntohs-htons : (p : ℕ) → p < 2 ^ 16 → arpa.ntohs (arpa.htons p) ≡ p

-- The members of `addr_` that are not constant.
pub record InetAddress : Type 0 where
  pub sin_port : ℕ
  pub s_addr : ℕ

module _ (arpa : Arpa) where
  abbrev pub create_address : ℕ → Bytes → InetAddress
  create_address port ip = record { sin_port = arpa.htons port; s_addr = arpa.inet_addr ip }

  abbrev pub to_ip : InetAddress → Bytes
  to_ip a = arpa.inet_ntop a.s_addr

  abbrev pub to_port : InetAddress → ℕ
  to_port a = arpa.ntohs a.sin_port

  unfoldable pub to_ip_port : InetAddress → Bytes
  to_ip_port a =
      arpa.inet_ntop a.s_addr ++ take 15 (codes ":" ++ to_string (pos (arpa.ntohs a.sin_port)))

  -- The text fits the buffers that it is written to.
  pub length-to_ip_port_le : IsLawful arpa → (a : InetAddress) → length (to_ip_port a) ≤ 21
  unfolding to_ip_port
  length-to_ip_port_le lawful a =
      let digits = to_string (pos (arpa.ntohs a.sin_port)) in
      omega (
        arith,
        lawful.length-inet_ntop_le a.s_addr,
        length-append (arpa.inet_ntop a.s_addr) (take 15 (codes ":" ++ digits)),
        length-take 15 (codes ":" ++ digits),
        length-append (codes ":") digits,
        lawful.ntohs_lt a.sin_port,
        length-to_string_le 4 (arpa.ntohs a.sin_port) (omega (arith, lawful.ntohs_lt a.sin_port)),
      )
