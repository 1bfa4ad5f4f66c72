-- ===== src/Tests/Iterators.antt =====
-- The iterator over a list of two nodes.
use sydn.Common.{ℕ, byte, replicate, ◌≡◌, none, some, [], ◌∷◌, ◌==◌, if◌then◌else◌}
use sydn.Net.AddressInfoList.Info.{Node}
use sydn.Net.AddressInfoList.{Pointer, begin, end}
use sydn.Net.AddressInfoList.Visits.{
  Chain, running, visit, post_visit, visit-begin, post_visit-begin,
}

abbrev next_of : ℕ → Pointer
next_of e = if e == 5 then some 2 else none

two_nodes : Chain next_of (some 5) (5 ∷ 2 ∷ [])
two_nodes = Chain.cons (Chain.cons Chain.nil)

visit-begin_example :
    visit next_of 3 (begin (record { d_list = some 5 })) (end (record { d_list = some 5 }))
    ≡ some (
        record { d_list = some 5; d_element = some 5 }
        ∷ record { d_list = some 5; d_element = some 2 }
        ∷ [])
visit-begin_example = visit-begin next_of (record { d_list = some 5 }) (5 ∷ 2 ∷ []) two_nodes

post_visit-begin_example :
    post_visit next_of 3 (begin (record { d_list = some 5 })) (end (record { d_list = some 5 }))
    ≡ running (replicate 3 (record { d_list = some 5; d_element = some 5 }))
post_visit-begin_example =
    post_visit-begin next_of (record { d_list = some 5 }) 5 (2 ∷ []) two_nodes 3

-- A node with an IPv4 address.
abbrev node : ℕ → Node
node e = record {
  ai_family = 2;
  ai_type = 1;
  ai_protocol = 6;
  ai_addrlen = 16;
  ai_addr = byte 2 ∷ replicate 15 (byte 0);
}
