-- ===== src/Http/Field.antt =====
-- Field lines: what is sent reads back.
use libdill.Base.{ℕ, ◌<◌, ◌≡◌, refl, ◌≢◌, false, List, [], ◌∷◌, ◌++◌, ◌==◌, length, ◌^◌, ok}
use libdill.Msock.{Msock}
use libdill.Http.{space, colon, peek, parse_field, field_line}
use libdill.Http.Scan.{Word, token-Word, skip_spaces-none, peek-Word, fits}

-- A line `name: value` is a field, and the value is kept to the line's end, spaces included.
pub parse_field-line :
    (name value : List ℕ) (namelen valuelen : ℕ)
    → Word colon name
    → name ≢ []
    → (peek value == space) ≡ false
    → length name < namelen
    → length value < valuelen
    → namelen < 2 ^ 64
    → valuelen < 2 ^ 64
    → parse_field namelen valuelen (field_line name value) ≡ ok (name, value)
parse_field-line n v nl vl wn en sv ln lv kn kv =
    unfold parse_field field_line in
    rw (
      skip_spaces-none (n ++ (colon ∷ space ∷ v)) (peek-Word colon n _ wn en),
      token-Word colon n (colon ∷ space ∷ v) wn refl,
      fits (length n) nl ln kn,
      skip_spaces-none v sv,
      fits (length v) vl lv kv,
    )
