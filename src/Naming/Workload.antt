-- ===== src/Naming/Workload.antt =====
-- The workload namespace of an instance (internal/controller/naming.go).
use dploy.Prelude.{
  ◌≤◌, ◌≡◌, ◌≢◌, refl, ap, ◌∙◌, ◌+◌, [], ◌∷◌, ◌++◌, false, if◌then◌else◌, is_empty, length,
  All-append, length-append, arith,
}
use dploy.Prelude.Text.{Text, codes}
use dploy.Naming.Chars.{truncate, is_key_char}
use dploy.Naming.Keys.{sanitize, max_segment, workload_namespace}
use dploy.Naming.Trim.{
  IsClean, IsKey, starts_with_dash, ends_with_dash, truncate-IsKey, truncate-ne, length-truncate-le,
}
use dploy.Naming.OwnerKey.{sanitize-IsKey}

starts-append :
    (s t : Text) → s ≢ [] → starts_with_dash s ≡ false → starts_with_dash (s ++ t) ≡ false
starts-append [] t n h = absurd (n refl)
starts-append (c ∷ s) t n h = h

ends-append : (s t : Text) → t ≢ [] → ends_with_dash (s ++ t) ≡ ends_with_dash t
ends-append [] t n = refl
ends-append (c ∷ []) [] n = absurd (n refl)
ends-append (c ∷ []) (d ∷ t) n = refl
ends-append (c ∷ d ∷ s) t n = ends-append (d ∷ s) t n

-- The owner segment of a namespace: "pool" where the owner has no key.
owner_segment : Text → Text
owner_segment o = if is_empty o then codes "pool" else o

owner_segment-IsKey : (o : Text) → IsKey o → IsKey (owner_segment o)
unfolding owner_segment is_key_char
owner_segment-IsKey [] k = ground arith
owner_segment-IsKey (c ∷ o) k = k

owner_segment-ne : (o : Text) → owner_segment o ≢ []
unfolding owner_segment
owner_segment-ne [] e = cc
owner_segment-ne (c ∷ o) e = cc

-- What precedes the identifier, by its parts.
join-IsClean :
    (a b uid : Text)
    → IsClean a
    → IsClean b
    → IsClean uid
    → IsClean (a ++ (codes "-" ++ (b ++ (codes "-" ++ uid))))
unfolding is_key_char
join-IsClean a b uid ha hb hu = All-append _ a _ ha (refl, All-append _ b _ hb (refl, hu))

length-join :
    (a b uid : Text)
    → length (a ++ (codes "-" ++ (b ++ (codes "-" ++ uid)))) ≡ length a + length b + length uid + 2
length-join a b uid = omega (
  arith,
  length-append a (codes "-" ++ (b ++ (codes "-" ++ uid))),
  length-append b (codes "-" ++ uid),
)

ends-join :
    (a b uid : Text)
    → uid ≢ []
    → ends_with_dash (a ++ (codes "-" ++ (b ++ (codes "-" ++ uid)))) ≡ ends_with_dash uid
ends-join a b [] n = absurd (n refl)
ends-join a b (c ∷ uid) n =
    ends-append a (codes "-" ++ (b ++ (codes "-" ++ (c ∷ uid)))) (λ e. cc)
    ∙ ends-append (codes "-" ++ b) (codes "-" ++ (c ∷ uid)) (λ e. cc)

-- For an eight-character identifier that is a key, the workload namespace of any owner and template
-- is a DNS label: only a-z, 0-9 and "-", no dash at either end, and at most 50 characters.
pub workload_namespace-IsKey :
    (owner template uid : Text)
    → IsKey uid
    → length uid ≡ 8
    → IsKey (workload_namespace owner template uid)
      × (length (workload_namespace owner template uid) ≤ 50)
unfolding workload_namespace owner_segment
workload_namespace-IsKey owner template uid k e = (
  record {
    clean = join-IsClean o t uid ok.clean tk.clean k.clean;
    no_leading_dash = starts-append o _ on ok.no_leading_dash;
    no_trailing_dash =
        ends-join o t uid (λ z. absurd (omega (arith, ap length z, e))) ∙ k.no_trailing_dash;
  },
  omega (
    arith,
    length-join o t uid,
    length-truncate-le (owner_segment (sanitize owner)) max_segment,
    length-truncate-le (sanitize template) max_segment,
  ),
)
  where
    o : Text
    o = truncate (owner_segment (sanitize owner)) max_segment

    t : Text
    t = truncate (sanitize template) max_segment

    ok : IsKey o
    ok =
        truncate-IsKey (owner_segment (sanitize owner)) max_segment
          (owner_segment-IsKey (sanitize owner) (sanitize-IsKey owner))

    on : o ≢ []
    on =
        truncate-ne (owner_segment (sanitize owner)) 19
          (owner_segment-IsKey (sanitize owner) (sanitize-IsKey owner))
          (owner_segment-ne (sanitize owner))

    tk : IsKey t
    tk = truncate-IsKey (sanitize template) max_segment (sanitize-IsKey template)
