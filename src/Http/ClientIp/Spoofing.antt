-- ===== src/Http/ClientIp/Spoofing.antt =====
-- Which part of the header X-Forwarded-For decides the client's address.
use mathlib.Core.List.{append_assoc, reverse, reverse-append, reverse-cons}
use agent_events.Prelude.{
  String, ◌≡◌, ◌≢◌, refl, ◌∙◌, ◌⊎◌, inl, inr, true, false, List, [], ◌∷◌, ◌++◌, All, ◌==◌,
  Bool-cases, eq_iff, eq_false_of_ne,
}
use agent_events.Text.{trim_space, split}
use agent_events.Http.ClientIp.{Net, host_of, is_proxy_entry, last_untrusted, client_ip}

All-append : {A : Type 0} (P : A → Type 0) (xs ys : List A) → All P xs → All P ys → All P (xs ++ ys)
All-append P [] ys p q = q
All-append P (x ∷ xs) ys (p, ps) q = (p, All-append P xs ys ps q)

All-reverse : {A : Type 0} (P : A → Type 0) (xs : List A) → All P xs → All P (reverse xs)
All-reverse P [] p = tt
All-reverse P (x ∷ xs) (p, ps) =
    rw reverse-cons (All-append P (reverse xs) (x ∷ []) (All-reverse P xs ps) (p, tt))

module _ (net : Net) where
  open net use {IpNet, split_host_port}

  -- A part of the header that is passed over: nothing, or the address of a trusted proxy.
  abbrev pub Passed : List IpNet → String → Type 0
  Passed trusted part =
      (trim_space part ≡ "") ⊎ (is_proxy_entry net trusted (trim_space part) ≡ true)

  last_untrusted-append :
      (trusted : List IpNet) (host : String) (ps qs : List String)
      → All (Passed trusted) ps
      → last_untrusted net trusted host (ps ++ qs) ≡ last_untrusted net trusted host qs
  unfolding last_untrusted
  last_untrusted-append trusted host [] qs passed = refl
  last_untrusted-append trusted host (p ∷ ps) qs (inl blank, passed) =
      rw blank (last_untrusted-append trusted host ps qs passed)
  last_untrusted-append trusted host (p ∷ ps) qs (inr proxy, passed) =
      elim (Bool-cases (trim_space p == "")) [
        | inl blank ↦ rw blank (last_untrusted-append trusted host ps qs passed)
        | inr given ↦ rw (given, proxy) (last_untrusted-append trusted host ps qs passed)
      ]

  -- An empty header has one part, which is passed over.
  client_ip-of_trusted :
      (remote_addr forwarded : String) (trusted : List IpNet)
      → let host = host_of net remote_addr (split_host_port remote_addr) in
        is_proxy_entry net trusted host ≡ true
        → client_ip net remote_addr forwarded trusted
          ≡ last_untrusted net trusted host (reverse (split forwarded 0x2C))
  unfolding client_ip last_untrusted split trim_space
  client_ip-of_trusted remote_addr forwarded trusted peer = elim (Bool-cases (forwarded == "")) [
    | inl empty ↦ rw (peer, (eq_iff _ _).0 empty) refl
    | inr given ↦ rw (peer, given) refl
  ]

  -- Behind a trusted peer, let some part of X-Forwarded-For, between commas, be neither blank nor a
  -- trusted proxy, and let every part behind it be one of the two, if there is any; then that part,
  -- trimmed, is the client's address, whatever the client put in front of it.
  pub client_ip-last_entry :
      (remote_addr forwarded part : String) (front back : List String) (trusted : List IpNet)
      → is_proxy_entry net trusted (host_of net remote_addr (split_host_port remote_addr)) ≡ true
      → split forwarded 0x2C ≡ front ++ part ∷ back
      → All (Passed trusted) back
      → trim_space part ≢ ""
      → is_proxy_entry net trusted (trim_space part) ≡ false
      → client_ip net remote_addr forwarded trusted ≡ trim_space part
  unfolding last_untrusted
  client_ip-last_entry remote_addr forwarded part front back trusted peer parts passed given
        outside =
      rw
        (
          client_ip-of_trusted remote_addr forwarded trusted peer,
          parts,
          reverse-append front (part ∷ back),
          reverse-cons,
          append_assoc,
        )
        (last_untrusted-append trusted _ (reverse back) (part ∷ reverse front)
            (All-reverse (Passed trusted) back passed)
          ∙ rw (eq_false_of_ne _ _ given, outside) refl)
