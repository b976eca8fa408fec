-- ===== src/Tunnel/Polls.antt =====
-- The two waits of the tunnel: how long they can take, and when they end well.
use sand_d.Prelude.{
  ℕ, zero, suc, ◌+◌, ◌*◌, ◌≤◌, ◌<◌, String, Bool, true, false, Option, none, some, List, [], ◌∷◌,
  ◌++◌, ◌≡◌, ◌≢◌, ◌↔◌, refl, sym, eq_iff, arith, Bool-cases, Option-cases, inl, inr, ap, ◌∙◌,
}
use sand_d.Tunnel.{Step, sleep, Output, joined, address, await_ip, await_proxy}

abbrev millis : Step → ℕ
millis (sleep n) = n
millis _ = 0

-- The time that the steps of a run sleep.
unfoldable pub slept : List Step → ℕ
slept [] = 0
slept (s ∷ steps) = millis s + slept steps

pub slept-append : (a b : List Step) → slept (a ++ b) ≡ slept a + slept b
unfolding slept
slept-append [] b = omega arith
slept-append (s ∷ a) b = omega (arith, slept-append a b)

pub slept-await_proxy :
    (probes : ℕ → Bool) (fuel i : ℕ) → slept (await_proxy probes fuel i).0 ≤ 500 * fuel
unfolding slept await_proxy
slept-await_proxy probes zero i = omega arith
slept-await_proxy probes (suc fuel) i = ground (arith, slept-await_proxy probes fuel (i + 1))

abbrev pub ReadyWithin : (ℕ → Bool) → (fuel i : ℕ) → Type 0
ReadyWithin probes fuel i = (j : ℕ) × (j < fuel) × (probes (i + j) ≡ true)

ready_later :
    (probes : ℕ → Bool) (fuel i : ℕ)
    → ReadyWithin probes fuel (i + 1)
    → ReadyWithin probes (suc fuel) i
ready_later probes fuel i (j, h, r) = (suc j, omega arith, ap probes (omega arith) ∙ r)

ready_sooner :
    (probes : ℕ → Bool) (fuel i : ℕ)
    → probes i ≡ false
    → ReadyWithin probes (suc fuel) i
    → ReadyWithin probes fuel (i + 1)
ready_sooner probes fuel i n (zero, h, r) =
    let now : probes i ≡ true = ap probes (omega arith) ∙ r in absurd (ground (arith, n, now))
ready_sooner probes fuel i n (suc j, h, r) = (j, omega arith, ap probes (omega arith) ∙ r)

-- The wait for the proxy ends well exactly if one of the probes finds it.
pub await_proxy_iff :
    (probes : ℕ → Bool) (fuel i : ℕ)
    → ((await_proxy probes fuel i).1 ≡ true) ↔ ReadyWithin probes fuel i
unfolding await_proxy
await_proxy_iff probes zero i = (λ h. absurd (cc), λ (j, h, r). absurd (omega arith))
await_proxy_iff probes (suc fuel) i =
    let (to, from) = await_proxy_iff probes fuel (i + 1) in
    elim (Bool-cases (probes i)) [
      | inl r ↦ (λ _. (0, omega arith, ap probes (omega arith) ∙ r), λ _. rw (await_proxy, r) refl)
      | inr n ↦ (
        λ h. ready_later probes fuel i (to (ground (arith, n))),
        λ w. ground (arith, n, from (ready_sooner probes fuel i n w)),
      )
    ]

module _ (trim : String → String) (ips : ℕ → Option Output) where
  pub slept-await_ip : (fuel i : ℕ) → slept (await_ip trim ips fuel i).0 ≤ 1000 * fuel
  unfolding slept await_ip
  slept-await_ip zero i = omega arith
  slept-await_ip (suc fuel) i = ground (arith, slept-await_ip fuel (i + 1))

  abbrev AssignedWithin : (fuel i : ℕ) → Type 0
  AssignedWithin fuel i =
      (j : ℕ) × (a : String) × (j < fuel) × (address trim (ips (i + j)) ≡ some a)

  assigned_later : (fuel i : ℕ) → AssignedWithin fuel (i + 1) → AssignedWithin (suc fuel) i
  assigned_later fuel i (j, a, h, r) =
      (suc j, a, omega arith, ap (λ k. address trim (ips k)) (omega arith) ∙ r)

  assigned_sooner :
      (fuel i : ℕ)
      → address trim (ips i) ≡ none
      → AssignedWithin (suc fuel) i
      → AssignedWithin fuel (i + 1)
  assigned_sooner fuel i n (zero, a, h, r) =
      let now : address trim (ips i) ≡ some a = ap (λ k. address trim (ips k)) (omega arith) ∙ r in
      absurd (ground (arith, n, now))
  assigned_sooner fuel i n (suc j, a, h, r) =
      (j, a, omega arith, ap (λ k. address trim (ips k)) (omega arith) ∙ r)

  -- The wait for an address ends well exactly if one of the commands prints one.
  await_ip_iff : (fuel i : ℕ) → ((await_ip trim ips fuel i).1 ≡ joined) ↔ AssignedWithin fuel i
  unfolding await_ip
  await_ip_iff zero i = (λ h. absurd (cc), λ (j, a, h, r). absurd (omega arith))
  await_ip_iff (suc fuel) i =
      let (to, from) = await_ip_iff fuel (i + 1) in
      elim (Option-cases (address trim (ips i))) [
        | inr (a, r) ↦ (
          λ _. (0, a, omega arith, ap (λ k. address trim (ips k)) (omega arith) ∙ r),
          λ _. rw (await_ip, r) refl,
        )
        | inl n ↦ (
          λ h. assigned_later fuel i (to (ground (arith, n))),
          λ w. ground (arith, n, from (assigned_sooner fuel i n w)),
        )
      ]

zero_add : (j : ℕ) → 0 + j ≡ j
zero_add j = omega arith

-- A command that succeeds and prints an address.
abbrev pub HasPrinted : (trim : String → String) → Option Output → Type 0
HasPrinted trim look = (o : Output) × (look ≡ some o) × (o.success ≡ true) × (trim o.stdout ≢ "")

printed-address :
    (trim : String → String) (look : Option Output)
    → HasPrinted trim look
    → (a : String) × (address trim look ≡ some a)
unfolding address
printed-address trim look (o, l, s, n) =
    (trim o.stdout, ground (arith, l, s, eq_iff (trim o.stdout) ""))

address-printed :
    (trim : String → String) (look : Option Output) {a : String}
    → address trim look ≡ some a
    → HasPrinted trim look
unfolding address
address-printed trim none h = absurd (cc)
address-printed trim (some o) h =
    (o, refl, ground arith, λ e. ground (arith, eq_iff (trim o.stdout) ""))

-- One of the first looks finds an address.
abbrev pub PrintedWithin : (trim : String → String) → (ℕ → Option Output) → (fuel : ℕ) → Type 0
PrintedWithin trim ips fuel = (j : ℕ) × (j < fuel) × HasPrinted trim (ips j)

pub await_ip-PrintedWithin :
    (trim : String → String) (ips : ℕ → Option Output) (fuel : ℕ)
    → ((await_ip trim ips fuel 0).1 ≡ joined) ↔ PrintedWithin trim ips fuel
await_ip-PrintedWithin trim ips fuel =
    let (to, from) = await_ip_iff trim ips fuel 0 in
    (
      λ h.
          let (j, a, less, found) = to h in
          (
            j,
            less,
            address-printed trim (ips j)
                (ap (λ k. address trim (ips k)) (sym (zero_add j)) ∙ found),
          ),
      λ (j, less, shown).
          let (a, found) = printed-address trim (ips j) shown in
          from (j, a, less, ap (λ k. address trim (ips k)) (zero_add j) ∙ found),
    )
