-- ===== src/Tests.antt =====
-- Runs of the code on small memories, trees and replies, with the theorems applied to them.
mod Queue
mod Tree
mod Reply
mod Dump
mod Subscription
mod Text
mod Client
mod Calls
mod Failures
mod Confirm
mod Replies
mod Pipeline
