-- ===== src/Utils/Tests.antt =====
-- utils.c on concrete buffers.
use libdill.Utils.Base64.{encode, finish, emit, decode}
use libdill.Utils.Base64.Encode.{groups, encode-groups}
use libdill.Base.{returns, ascii, none, some, refl, arith, ◌≡◌, [], ◌∷◌}

encode_example :
    encode 9 (102 ∷ 111 ∷ 255 ∷ 0 ∷ []) ≡ returns (some (groups (102 ∷ 111 ∷ 255 ∷ 0 ∷ [])))
encode_example =
    encode-groups 9 (102 ∷ 111 ∷ 255 ∷ 0 ∷ [])
      (omega arith, (omega arith, (omega arith, (omega arith, tt)))) (omega arith) (omega arith)

-- The text "foobar" and back, without room for the NUL, and with a space and a bad character.
encode_test : encode 9 (ascii "foobar") ≡ returns (some (ascii "Zm9vYmFy"))
unfolding encode finish emit
encode_test = refl

no_room_test : encode 8 (ascii "foobar") ≡ returns none
unfolding encode finish emit
no_room_test = refl

decode_test : decode 6 (ascii "Zm 9vYmFy!Zm9v") ≡ returns (some (ascii "foobar"))
unfolding decode emit
decode_test = refl
