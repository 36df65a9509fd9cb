-- ===== src/Tests.antt =====
-- Runs of the model on small boards, and the theorems at these boards.
mod World
mod Envelope
mod BoardSecret
mod Handoff
mod CatchUp
mod Thread
mod ThreadQuery
mod SendSecret
mod Wait
mod Reply
mod Agents
mod Tools
mod Humans
mod Profile
mod Activity
mod Mention
mod Posts
