-- ===== src/Examples.antt =====
-- Runs of the model on concrete inputs, and each theorem with hypotheses applied at one.
mod Trees
mod Lists
mod Parsers
mod Headers
mod Pools
mod Messages
mod Urls
mod Requests
mod Replies
mod Workers
mod Options
