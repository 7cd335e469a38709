-- ===== src/Inet/Toy.antt =====
-- Calls of arpa/inet.h for the tests.
use my_testserver.Prelude.{◌%◌, codes, arith}
use my_testserver.Inet.{Arpa, IsLawful}

abbrev pub plain : Arpa
plain = record {
  htons = λ p. p;
  ntohs = λ p. p % 65536;
  inet_addr = λ ip. 0;
  inet_ntop = λ a. codes "0.0.0.0";
}

pub plain-IsLawful : IsLawful plain
plain-IsLawful = record {
  length-inet_ntop_le = λ a. omega arith;
  ntohs_lt = λ p. omega arith;
  ntohs-htons = λ p h. omega arith;
}
