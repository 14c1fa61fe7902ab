-- ===== src/System/Instructions.antt =====
-- skeys-core/system/service.go: how the parts of OpenSSH are installed on a distribution.
use skeys.Prelude.{Bool, false, ◌||◌, List, [], ◌∷◌, ◌==◌, if◌then◌else◌}
use skeys.Text.{Text, text_eq, codes}

-- what differs between the distributions
pub record Instructions : Type 0 where
  pub package_name : Text
  pub install_command : Text
  pub steps : List Text
  pub documentation_url : Text

pub record InstallInstructions : Type 0 where
  pub distribution : Text
  pub component : Text
  pub instructions : Instructions

unfoldable pub is_one_of : Text → List Text → Bool
is_one_of t [] = false
is_one_of t (n ∷ ns) = t == n || is_one_of t ns

unfoldable pub client_install_instructions : Text → Instructions
unfolding is_one_of
client_install_instructions distro =
    if is_one_of distro
      (codes "ubuntu" ∷ codes "debian" ∷ codes "pop" ∷ codes "linuxmint" ∷ codes "elementary" ∷ [])
    then record {
      package_name = codes "openssh-client";
      install_command = codes "sudo apt install openssh-client";
      steps =
          codes "Open a terminal"
          ∷ codes "Run: sudo apt update"
          ∷ codes "Run: sudo apt install openssh-client"
          ∷ codes "Verify installation: ssh -V"
          ∷ [];
      documentation_url = codes "https://help.ubuntu.com/community/SSH";
    }
    else if is_one_of distro
        (codes "fedora" ∷ codes "rhel" ∷ codes "centos" ∷ codes "rocky" ∷ codes "almalinux" ∷ [])
    then record {
      package_name = codes "openssh-clients";
      install_command = codes "sudo dnf install openssh-clients";
      steps =
          codes "Open a terminal"
          ∷ codes "Run: sudo dnf install openssh-clients"
          ∷ codes "Verify installation: ssh -V"
          ∷ [];
      documentation_url =
          codes
            "https://docs.fedoraproject.org/en-US/fedora/latest/system-administrators-guide/infrastructure-services/OpenSSH/";
    }
    else if is_one_of distro (codes "arch" ∷ codes "manjaro" ∷ codes "endeavouros" ∷ [])
    then record {
      package_name = codes "openssh";
      install_command = codes "sudo pacman -S openssh";
      steps =
          codes "Open a terminal"
          ∷ codes "Run: sudo pacman -S openssh"
          ∷ codes "Verify installation: ssh -V"
          ∷ [];
      documentation_url = codes "https://wiki.archlinux.org/title/OpenSSH";
    }
    else if is_one_of distro (codes "opensuse" ∷ codes "suse" ∷ [])
    then record {
      package_name = codes "openssh";
      install_command = codes "sudo zypper install openssh";
      steps =
          codes "Open a terminal"
          ∷ codes "Run: sudo zypper install openssh"
          ∷ codes "Verify installation: ssh -V"
          ∷ [];
      documentation_url = codes "https://en.opensuse.org/OpenSSH";
    }
    else record {
      package_name = codes "openssh";
      install_command = [];
      steps =
          codes "Check your distribution's package manager"
          ∷ codes "Search for 'openssh' or 'openssh-client' package"
          ∷ codes "Install using your package manager"
          ∷ codes "Verify installation: ssh -V"
          ∷ [];
      documentation_url = codes "https://www.openssh.com/";
    }

unfoldable pub server_install_instructions : Text → Instructions
unfolding is_one_of
server_install_instructions distro =
    if is_one_of distro
      (codes "ubuntu" ∷ codes "debian" ∷ codes "pop" ∷ codes "linuxmint" ∷ codes "elementary" ∷ [])
    then record {
      package_name = codes "openssh-server";
      install_command = codes "sudo apt install openssh-server";
      steps =
          codes "Open a terminal"
          ∷ codes "Run: sudo apt update"
          ∷ codes "Run: sudo apt install openssh-server"
          ∷ codes "The SSH service will start automatically"
          ∷ codes "Verify: sudo systemctl status ssh"
          ∷ [];
      documentation_url = codes "https://help.ubuntu.com/community/SSH";
    }
    else if is_one_of distro
        (codes "fedora" ∷ codes "rhel" ∷ codes "centos" ∷ codes "rocky" ∷ codes "almalinux" ∷ [])
    then record {
      package_name = codes "openssh-server";
      install_command = codes "sudo dnf install openssh-server";
      steps =
          codes "Open a terminal"
          ∷ codes "Run: sudo dnf install openssh-server"
          ∷ codes "Start the service: sudo systemctl start sshd"
          ∷ codes "Enable on boot: sudo systemctl enable sshd"
          ∷ codes "Verify: sudo systemctl status sshd"
          ∷ [];
      documentation_url =
          codes
            "https://docs.fedoraproject.org/en-US/fedora/latest/system-administrators-guide/infrastructure-services/OpenSSH/";
    }
    else if is_one_of distro (codes "arch" ∷ codes "manjaro" ∷ codes "endeavouros" ∷ [])
    then record {
      package_name = codes "openssh";
      install_command = codes "sudo pacman -S openssh";
      steps =
          codes "Open a terminal"
          ∷ codes "Run: sudo pacman -S openssh"
          ∷ codes "Start the service: sudo systemctl start sshd"
          ∷ codes "Enable on boot: sudo systemctl enable sshd"
          ∷ codes "Verify: sudo systemctl status sshd"
          ∷ [];
      documentation_url = codes "https://wiki.archlinux.org/title/OpenSSH";
    }
    else if is_one_of distro (codes "opensuse" ∷ codes "suse" ∷ [])
    then record {
      package_name = codes "openssh";
      install_command = codes "sudo zypper install openssh";
      steps =
          codes "Open a terminal"
          ∷ codes "Run: sudo zypper install openssh"
          ∷ codes "Start the service: sudo systemctl start sshd"
          ∷ codes "Enable on boot: sudo systemctl enable sshd"
          ∷ codes "Verify: sudo systemctl status sshd"
          ∷ [];
      documentation_url = codes "https://en.opensuse.org/OpenSSH";
    }
    else record {
      package_name = codes "openssh-server";
      install_command = [];
      steps =
          codes "Check your distribution's package manager"
          ∷ codes "Search for 'openssh-server' package"
          ∷ codes "Install using your package manager"
          ∷ codes "Start the SSH service (usually sshd or ssh)"
          ∷ codes "Enable the service to start on boot"
          ∷ [];
      documentation_url = codes "https://www.openssh.com/";
    }

-- A component of another name has no instructions.
unfoldable pub get_install_instructions : Text → Text → InstallInstructions
unfolding client_install_instructions server_install_instructions
get_install_instructions distro component = record {
  distribution = distro;
  component = component;
  instructions =
      if component == codes "client"
      then client_install_instructions distro
      else if component == codes "server"
      then server_install_instructions distro
      else record { package_name = []; install_command = []; steps = []; documentation_url = [] };
}
