-- ===== src/Hermes/Session/Restored.antt =====
-- What a session that has ended gives back.
use xolis.Base.{
  ◌≡◌, refl, sym, ◌∙◌, ◌↔◌, ◌⊎◌, inl, inr, true, false, not, ◌&&◌, [], ◌∷◌, Bool-cases,
}
use xolis.Hermes.Session.{
  demo_error, os_error, value_error, keyboard_interrupt, Client, Verdict, runs, returns, raises,
  Ran, Held, Session, Connected, connected, refused, unreachable, dropped, World, SessionArgs,
  nothing_held, conclude, try_block, start_message, no_client, send_start, after_connect,
  interactive_session, Wire,
}

-- The session is in its loop: its start message was sent, and the terminal was set up.
abbrev pub IsInLoop : World → Type 0
IsInLoop world =
    (world.connects ≡ connected)
    × (world.wire 0 ≡ false)
    × ((world.is_tty && not world.reads_attributes) ≡ false)

-- The connection was made, and then the session failed before its `try`.
abbrev pub FailsEarly : World → Type 0
FailsEarly world =
    (world.connects ≡ dropped)
    ⊎ ((world.connects ≡ connected)
        × ((world.wire 0 ≡ true) ⊎ ((world.is_tty && not world.reads_attributes) ≡ true)))

abbrev Ended : Session → Type 0
Ended s = (s.ran.verdict ≡ runs) → ⊥

conclude-held :
    (wire : Wire) (held : Held) (v : Verdict) (client : Client)
    → Ended (conclude wire held v client)
    → (conclude wire held v client).held ≡ nothing_held
conclude-held wire held runs client h = absurd (h refl)
conclude-held wire held (returns code) client h = refl
conclude-held wire held (raises demo_error) client h = refl
conclude-held wire held (raises os_error) client h = refl
conclude-held wire held (raises value_error) client h = refl
conclude-held wire held (raises keyboard_interrupt) client h = refl

-- The standard input, the signal handler and the connection of a session.
pub record IsRestored (world : World) (held : Held) : Type 0 where
  pub terminal : held.terminal_raw ≡ false
  pub handler : held.handler_installed ≡ false
  pub connection : (held.connection_open ≡ true) ↔ FailsEarly world

module _ (world : World) (args : SessionArgs) where
  early :
      (h : Held)
      → h ≡ record nothing_held { connection_open = true }
      → FailsEarly world
      → IsRestored world h
  early h e f = rw e (record { terminal = refl; handler = refl; connection = (λ _. f, λ _. refl) })

  late : (h : Held) → h ≡ nothing_held → (FailsEarly world → ⊥) → IsRestored world h
  late h e never =
      rw e
        (record { terminal = refl; handler = refl; connection = (λ o. cc, λ f. absurd (never f)) })

  in_loop : IsInLoop world → FailsEarly world → ⊥
  in_loop (c, w, t) (inl d) = cc
  in_loop (c, w, t) (inr (d, f)) = elim f [ inl a ↦ cc | inr b ↦ cc ]

  unconnected :
      (c : Connected)
      → world.connects ≡ c
      → (c ≡ dropped → ⊥)
      → (c ≡ connected → ⊥)
      → FailsEarly world
      → ⊥
  unconnected c e d n (inl f) = d (sym e ∙ f)
  unconnected c e d n (inr (f, g)) = n (sym e ∙ f)

  -- Whatever way a session ends, the terminal is as it was and the signal handler is the old one; the
  -- connection is closed, except when the session fails between connecting and its loop.
  pub interactive_session-IsRestored :
      Ended (interactive_session world args)
      → IsRestored world (interactive_session world args).held
  unfolding interactive_session
  interactive_session-IsRestored h = by_connection world.connects refl h
    where
      last : Ran
      last = try_block world (record no_client { sent = start_message world args ∷ [] })

      in_session : Held
      in_session = record {
        connection_open = true;
        handler_installed = true;
        terminal_raw = world.is_tty;
      }

      looped :
          world.wire 0 ≡ false
          → (world.is_tty && not world.reads_attributes) ≡ false
          → Ended (conclude world.wire in_session last.verdict last.client)
          → (FailsEarly world → ⊥)
          → IsRestored world (send_start world args).held
      looped w t h never =
          late _ (rw (w, t) (conclude-held world.wire in_session last.verdict last.client h)) never

      by_connection :
          (c : Connected)
          → world.connects ≡ c
          → Ended (after_connect world args c)
          → IsRestored world (after_connect world args c).held
      by_connection refused e h = late _ refl (unconnected refused e (λ d. cc) (λ d. cc))
      by_connection unreachable e h = late _ refl (unconnected unreachable e (λ d. cc) (λ d. cc))
      by_connection dropped e h = early _ refl (inl e)
      by_connection connected e h = elim (Bool-cases (world.wire 0)) [
        | inl w ↦ early _ (rw w refl) (inr (e, inl w))
        | inr w ↦ elim (Bool-cases (world.is_tty && not world.reads_attributes)) [
          | inl t ↦ early _ (rw (w, t) refl) (inr (e, inr t))
          | inr t ↦ looped w t (rw (w, t) at h) (in_loop (e, w, t))
        ]
      ]
