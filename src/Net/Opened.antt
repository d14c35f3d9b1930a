-- ===== src/Net/Opened.antt =====
-- What `open_named` asks of the kernel, and all the ways it can end.
use lumper.Base.{
  ℕ, ◌-◌, ◌≤◌, ◌<◌, ◌≡◌, refl, ap, ◌⊎◌, inl, inr, List, ◌∷◌, ◌++◌, arith, length, drop, replicate,
  Result, ok, err, le→leb, lt→not-leb, recast, subst,
}
use lumper.Net.Tap.{build_terminated_if_name, invalid_ifname, drop-replicate}
use lumper.Net.Open.{
  IfReq, TunHost, TapError, name_error, io_error, ioctl_error, Opened, returns, panics, execute,
  unwrapped, with_tun, open_named, with_name, with_flags, if_req_new,
}

-- The name with zeros up to sixteen bytes, and the flags 0x5002.
abbrev pub request : List ℕ → IfReq
request if_name = record {
  ifr_ifrn = if_name ++ replicate (16 - length if_name) 0;
  ifr_ifru = 0x02 ∷ 0x50 ∷ replicate 22 0;
}

module _ (H : TunHost) where
  abbrev Outcome : Type 0
  Outcome = H.World × Opened ℕ (TapError H.IoError)

  -- What the kernel answers to the request.
  abbrev pub Asked : ℕ → IfReq → H.World → Outcome → Type 0
  Asked fd req w out =
      let answer = H.tun_set_iff fd req w in
      ((got : IfReq) × (answer.1 ≡ ok got) × (out ≡ (answer.0, returns (ok fd))))
      ⊎ ((e : H.IoError) × (answer.1 ≡ err e) × (out ≡ (answer.0, panics)))

  -- What it answers to the opening.
  abbrev pub Tried : List ℕ → H.World → Outcome → Type 0
  Tried if_name w out =
      ((e : H.IoError) × ((H.open_tun w).1 ≡ err e)
        × (out ≡ ((H.open_tun w).0, returns (err (io_error e)))))
      ⊎ ((fd : ℕ) × ((H.open_tun w).1 ≡ ok fd) × Asked fd (request if_name) (H.open_tun w).0 out)

  answered :
      (fd : ℕ) (p : H.World × Result H.IoError IfReq)
      → let out = unwrapped H fd (recast ioctl_error p) in
        ((got : IfReq) × (p.1 ≡ ok got) × (out ≡ (p.0, returns (ok fd))))
        ⊎ ((e : H.IoError) × (p.1 ≡ err e) × (out ≡ (p.0, panics)))
  answered fd (w, ok got) = inl (got, refl, refl)
  answered fd (w, err e) = inr (e, refl, refl)

  tried_open :
      (name : List ℕ) (req : IfReq) (p : H.World × Result H.IoError ℕ)
      → with_flags 0x5002 (with_name name if_req_new) ≡ req
      → ((e : H.IoError) × (p.1 ≡ err e) × (with_tun H name p ≡ (p.0, returns (err (io_error e)))))
        ⊎ ((fd : ℕ) × (p.1 ≡ ok fd) × Asked fd req p.0 (with_tun H name p))
  unfolding execute
  tried_open name req (w, err e) same = inl (e, refl, refl)
  tried_open name req (w, ok fd) same = inr (
    fd,
    refl,
    subst (λ r. Asked fd r w (with_tun H name (w, ok fd))) same
        (answered fd (H.tun_set_iff fd (with_flags 0x5002 (with_name name if_req_new)) w)),
  )

  named :
      (if_name : List ℕ)
      → length if_name < 16
      → (name : List ℕ) × (build_terminated_if_name if_name ≡ ok name)
        × (with_flags 0x5002 (with_name name if_req_new) ≡ request if_name)
  unfolding build_terminated_if_name with_flags with_name
  named if_name h = (
    if_name ++ drop (length if_name) (replicate 16 0),
    rw (lt→not-leb (length if_name) 16 h) refl,
    ap (λ rest. record { ifr_ifrn = if_name ++ rest; ifr_ifru = 0x02 ∷ 0x50 ∷ replicate 22 0 })
        (drop-replicate 16 (length if_name)),
  )

  -- A name of 16 bytes or more is refused before any call. A shorter one opens the tun device, whose
  -- error is returned, and then asks it for a tap interface with headers and without packet
  -- information, by the name with zeros behind it; if that is granted the tap is the open
  -- descriptor, and if it is refused the call panics.
  pub open_named_lem :
      (if_name : List ℕ) (w : H.World)
      → ((16 ≤ length if_name)
          × (open_named H if_name w ≡ (w, returns (err (name_error invalid_ifname)))))
        ⊎ ((length if_name < 16) × Tried if_name w (open_named H if_name w))
  unfolding open_named build_terminated_if_name
  open_named_lem if_name w = elim long_or_short [
    | inl h ↦ inl (h, rw (le→leb 16 (length if_name) h) refl)
    | inr h ↦
        let name = named if_name h in
        inr (h, rw (name.1) (tried_open name.0 (request if_name) (H.open_tun w) name.2))
  ]
    where
      long_or_short : (16 ≤ length if_name) ⊎ (length if_name < 16)
      long_or_short = omega arith
